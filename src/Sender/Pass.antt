-- ===== src/Sender/Pass.antt =====
-- What a pass of `QuicheSender::Loop` leaves of the connections.
use quicsend.Base.{ℕ, List, [], ◌∷◌, Bool, ◌||◌, All, erase}
use quicsend.ConnectionId.{ConnectionId}
use quicsend.Sender.{Handle, sweep}
use quicsend.Sender.Registry.{Connections, pass, pass_cases}

module _ {S : Type 0} (reread : Handle → S → ℕ) (is_closed : Handle → S → Bool)
    (flush_egress : Handle → S → Bool × S) where
  -- The connections that are left are among those there were.
  pub pass-All {ℓ} :
      (Q : ConnectionId × Handle → Type ℓ) (cs : Connections) (m : List (ℕ × Handle)) (fast : Bool)
      (s : S)
      → All Q cs
      → All Q (pass reread is_closed flush_egress cs m fast s).0
  unfolding sweep
  pass-All Q [] m fast s h = tt
  pass-All Q ((key, qc) ∷ rest) m fast s h =
      let (sent, s') = flush_egress qc s in
      pass_cases reread is_closed flush_egress (λ r. All Q r.0) key qc rest m fast s
        (pass-All Q rest (erase (reread qc s) m) fast s h.1)
        (h.0, pass-All Q rest m (fast || sent) s' h.1)
