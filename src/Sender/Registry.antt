-- ===== src/Sender/Registry.antt =====
-- The two maps of `QuicheSender` stay two views of one set of connections.
use quicsend.Base.{
  ℕ, ◌≡◌, refl, sym, subst, ◌∙◌, ◌≢◌, inl, inr, List, [], ◌∷◌, Bool, false, ◌||◌, Option, none,
  some, arith, ◌==◌, Bool-cases, if◌then◌else◌, lookup, erase, lookup-insert, lookup-erase,
}
use quicsend.ConnectionId.{ConnectionId, cid_eq}
use quicsend.Sender.{Handle, Sender, assign, find_dcid, add, sweep, tick}

abbrev pub Connections : Type 0
Connections = List (ConnectionId × Handle)

-- The connection with a number, looked for among the values of the first map.
abbrev pub scan : ℕ → Connections → Option Handle
scan id [] = none
scan id ((key, qc) ∷ rest) = if qc.assigned_id == id then some qc else scan id rest

abbrev pub Unnumbered : ℕ → Connections → Type 0
Unnumbered id [] = Unit {0}
Unnumbered id ((key, qc) ∷ rest) = (qc.assigned_id ≢ id) × Unnumbered id rest

-- No number is assigned twice.
abbrev pub Distinct : Connections → Type 0
Distinct [] = Unit {0}
Distinct ((key, qc) ∷ rest) = Unnumbered qc.assigned_id rest × Distinct rest

-- The second map finds exactly what is in the first.
pub record Paired (sender : Sender) : Type 0 where
  pub same : (id : ℕ) → lookup id sender.connections_by_id ≡ scan id sender.connections
  pub distinct : Distinct sender.connections

scan-Unnumbered : (id : ℕ) (cs : Connections) → Unnumbered id cs → scan id cs ≡ none
scan-Unnumbered id [] u = refl
scan-Unnumbered id ((key, qc) ∷ rest) u = ground (arith, scan-Unnumbered id rest u.1)

-- A connection id that is not found is added behind the others.
scan-assign :
    (id : ℕ) (qc : Handle) (dcid : ConnectionId) (cs : Connections)
    → find_dcid dcid cs ≡ none
    → Unnumbered qc.assigned_id cs
    → scan id (assign dcid qc cs) ≡ (if qc.assigned_id == id then some qc else scan id cs)
unfolding assign find_dcid
scan-assign id qc dcid [] missing u = refl
scan-assign id qc dcid ((key, old) ∷ rest) missing u = elim (Bool-cases (cid_eq key dcid)) [
  | inl found ↦ absurd (ground arith)
  | inr other ↦ rw other (ground (arith, scan-assign id qc dcid rest (rw other at missing) u.1))
]

Unnumbered-assign :
    (id : ℕ) (qc : Handle) (dcid : ConnectionId) (cs : Connections)
    → qc.assigned_id ≢ id
    → Unnumbered id cs
    → Unnumbered id (assign dcid qc cs)
unfolding assign
Unnumbered-assign id qc dcid [] apart u = (apart, tt)
Unnumbered-assign id qc dcid ((key, old) ∷ rest) apart u = elim (Bool-cases (cid_eq key dcid)) [
  | inl found ↦ rw found (apart, u.1)
  | inr other ↦ rw other (u.0, Unnumbered-assign id qc dcid rest apart u.1)
]

Distinct-assign :
    (qc : Handle) (dcid : ConnectionId) (cs : Connections)
    → Unnumbered qc.assigned_id cs
    → Distinct cs
    → Distinct (assign dcid qc cs)
unfolding assign
Distinct-assign qc dcid [] u d = (tt, tt)
Distinct-assign qc dcid ((key, old) ∷ rest) u d = elim (Bool-cases (cid_eq key dcid)) [
  | inl found ↦ rw found (u.1, d.1)
  | inr other ↦ rw other (
    Unnumbered-assign old.assigned_id qc dcid rest (λ e. u.0 (sym e)) d.0,
    Distinct-assign qc dcid rest u.1 d.1,
  )
]

pub add-Paired :
    (qc : Handle) (sender : Sender)
    → find_dcid qc.dcid sender.connections ≡ none
    → Unnumbered qc.assigned_id sender.connections
    → Paired sender
    → Paired (add qc sender)
unfolding add
add-Paired qc sender missing u p = record {
  same = λ id. ground (
    arith,
    lookup-insert qc.assigned_id id qc sender.connections_by_id,
    scan-assign id qc qc.dcid sender.connections missing u,
    p.same id,
  );
  distinct = Distinct-assign qc qc.dcid sender.connections u p.distinct;
}

module _ {S : Type 0} (reread : Handle → S → ℕ) (is_closed : Handle → S → Bool)
    (flush_egress : Handle → S → Bool × S) where
  abbrev pub pass :
      Connections → List (ℕ × Handle) → Bool → S → Connections × List (ℕ × Handle) × Bool × S
  pass cs m fast s = sweep reread is_closed flush_egress cs m fast s

  -- To prove something of a pass is to prove it of the two ways with its first connection.
  pub pass_cases {ℓ} :
      (P : Connections × List (ℕ × Handle) × Bool × S → Type ℓ) (key : ConnectionId) (qc : Handle)
      (rest : Connections) (m : List (ℕ × Handle)) (fast : Bool) (s : S)
      → let (sent, s') = flush_egress qc s in
        let kept = pass rest m (fast || sent) s' in
        P (pass rest (erase (reread qc s) m) fast s)
        → P ((key, qc) ∷ kept.0, kept.1, kept.2, kept.3)
        → P (pass ((key, qc) ∷ rest) m fast s)
  unfolding sweep
  pass_cases P key qc rest m fast s a b = elim (Bool-cases (is_closed qc s)) [
    | inl closed ↦ rw (closed, sweep) a
    | inr alive ↦ rw (alive, sweep) b
  ]

  pass-Unnumbered :
      (id : ℕ) (cs : Connections) (m : List (ℕ × Handle)) (fast : Bool) (s : S)
      → Unnumbered id cs
      → Unnumbered id (pass cs m fast s).0
  unfolding sweep
  pass-Unnumbered id [] m fast s u = tt
  pass-Unnumbered id ((key, qc) ∷ rest) m fast s u =
      pass_cases (λ r. Unnumbered id r.0) key qc rest m fast s
        (pass-Unnumbered id rest (erase (reread qc s) m) fast s u.1)
        (u.0, pass-Unnumbered id rest m (fast || (flush_egress qc s).0) (flush_egress qc s).1 u.1)

  pass-Distinct :
      (cs : Connections) (m : List (ℕ × Handle)) (fast : Bool) (s : S)
      → Distinct cs
      → Distinct (pass cs m fast s).0
  unfolding sweep
  pass-Distinct [] m fast s d = tt
  pass-Distinct ((key, qc) ∷ rest) m fast s d =
      let fast' = fast || (flush_egress qc s).0 in
      let s' = (flush_egress qc s).1 in
      pass_cases (λ r. Distinct r.0) key qc rest m fast s
        (pass-Distinct rest (erase (reread qc s) m) fast s d.1)
        (pass-Unnumbered qc.assigned_id rest m fast' s' d.0, pass-Distinct rest m fast' s' d.1)

module _ {S : Type 0} (reread : Handle → S → ℕ) (is_closed : Handle → S → Bool)
    (flush_egress : Handle → S → Bool × S)
    (right : (qc : Handle) (s : S) → reread qc s ≡ qc.assigned_id) where
  -- A number that is not among the connections is left alone in the second map.
  pass-other :
      (id : ℕ) (cs : Connections) (m : List (ℕ × Handle)) (fast : Bool) (s : S)
      → Unnumbered id cs
      → lookup id (pass reread is_closed flush_egress cs m fast s).1 ≡ lookup id m
  unfolding sweep
  pass-other id [] m fast s u = refl
  pass-other id ((key, qc) ∷ rest) m fast s u =
      pass_cases reread is_closed flush_egress (λ r. lookup id r.1 ≡ lookup id m) key qc rest m fast
        s
        (pass-other id rest (erase (reread qc s) m) fast s u.1
          ∙ ground (arith, lookup-erase (reread qc s) id m, right qc s, u.0))
        (pass-other id rest m (fast || (flush_egress qc s).0) (flush_egress qc s).1 u.1)

  pass-same :
      (id : ℕ) (cs : Connections) (m : List (ℕ × Handle)) (fast : Bool) (s : S)
      → Distinct cs
      → lookup id m ≡ scan id cs
      → let r = pass reread is_closed flush_egress cs m fast s in lookup id r.1 ≡ scan id r.0
  unfolding sweep
  pass-same id [] m fast s d e = e
  pass-same id ((key, qc) ∷ rest) m fast s d e =
      let fast' = fast || (flush_egress qc s).0 in
      let s' = (flush_egress qc s).1 in
      let m' = erase (reread qc s) m in
      let gone = lookup-erase (reread qc s) id m in
      elim (Bool-cases (qc.assigned_id == id)) [
        | inl own ↦
            let same_id : qc.assigned_id ≡ id = ground arith in
            let u : Unnumbered id rest = subst (λ i. Unnumbered i rest) same_id d.0 in
            pass_cases reread is_closed flush_egress (λ r. lookup id r.1 ≡ scan id r.0) key qc rest
              m fast s
              (ground (
                arith,
                gone,
                right qc s,
                pass-other id rest m' fast s u,
                scan-Unnumbered id (pass reread is_closed flush_egress rest m' fast s).0
                    (pass-Unnumbered reread is_closed flush_egress id rest m' fast s u),
              ))
              (ground (arith, pass-other id rest m fast' s' u))
        | inr other ↦
            pass_cases reread is_closed flush_egress (λ r. lookup id r.1 ≡ scan id r.0) key qc rest
              m fast s (pass-same id rest m' fast s d.1 (ground (arith, gone, right qc s)))
              (ground (arith, pass-same id rest m fast' s' d.1 (ground arith)))
      ]

  -- A pass reread is_closed flush_egress of the thread of QuicheSender, whatever connections it finds closed and whatever their
  -- flushes do, keeps this, if a number that is read from a node after it was erased is still
  -- the one of the connection: the map by numbers finds exactly the connections of the map by
  -- connection ids, and no number is assigned twice.
  pub tick-Paired :
      (sender : Sender) (s : S)
      → Paired sender
      → Paired (tick reread is_closed flush_egress sender s).0
  unfolding tick
  tick-Paired sender s p =
      let cs = sender.connections in
      let m = sender.connections_by_id in
      record {
        same = λ id. pass-same id cs m false s p.distinct (p.same id);
        distinct = pass-Distinct reread is_closed flush_egress cs m false s p.distinct;
      }
