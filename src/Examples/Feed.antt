-- ===== src/Examples/Feed.antt =====
-- A concrete `Quiche` that hands over a given sequence of events and parts of bodies, with the laws
-- of what arrives.
use quicsend.Base.{
  ℕ, suc, ◌≤◌, ◌≡◌, refl, List, [], ◌∷◌, Bool, true, false, some, arith, ℤ, pos, negsuc, length,
  ◌==◌, if◌then◌else◌, take, take_all, ◌||◌, int_eq, is_neg, pos_part, Bool-cases, inl, inr,
}
use quicsend.Sockaddr.{sockaddr_in}
use quicsend.Quiche.{Quiche, H3Event, unknown_event}
use quicsend.Quiche.Arrivals.{Arrivals, add_piece, content, observe, EventLaws, FiniteLaws}

pub record Feed : Type 0 where
  pub events : List (ℕ × H3Event)
  pub bodies : List (ℕ × List ℕ)
  pub arrivals : Arrivals

abbrev poll_feed : Bool → Feed → ℤ × H3Event × Feed
poll_feed h s = elim s.events [
  | [] ↦ (negsuc 0, unknown_event, s)
  | (id, event) ∷ rest ↦
      (pos id, event, record s { events = rest; arrivals = observe id event s.arrivals })
]

-- A part of the body, if the next one is of that stream.
abbrev next_part : ℕ → List (ℕ × List ℕ) → Feed → ℤ × List ℕ × Feed
next_part id [] s = (negsuc 0, [], s)
next_part id ((k, []) ∷ rest) s = (negsuc 0, [], s)
next_part id ((k, b ∷ part) ∷ rest) s =
    if k == id
    then (
      pos (suc (length part)),
      b ∷ part,
      record s { bodies = rest; arrivals = add_piece id (content (b ∷ part)) s.arrivals },
    )
    else (negsuc 0, [], s)

abbrev pub feed : Quiche
feed = record {
  State = Feed;
  err_done = negsuc 0;
  h3_err_done = negsuc 0;
  h3_err_stream_blocked = negsuc 12;
  h3_transport_err_stream_limit = negsuc 1011;
  accept = λ dcid odcid from to.
      some (record {
        events = [];
        bodies = [];
        arrivals = record { pieces = λ k. []; messages = [] };
      });
  connect = λ scid from to.
      some (record {
        events = [];
        bodies = [];
        arrivals = record { pieces = λ k. []; messages = [] };
      });
  conn_recv = λ bytes from to s. (pos (length bytes), s);
  conn_send = λ capacity s.
      (record { written = negsuc 0; bytes = []; to = sockaddr_in 0 0; to_len = 16 }, s);
  conn_is_established = λ s. true;
  conn_is_closed = λ s. false;
  conn_timeout_as_millis = λ s. 25;
  conn_on_timeout = λ s. s;
  conn_close = λ reason s. s;
  conn_stream_shutdown = λ id how s. s;
  conn_peer_cert = λ s. [];
  h3_conn_new_with_transport = λ s. (true, s);
  h3_conn_poll = poll_feed;
  h3_recv_body = λ h id capacity s. next_part id s.bodies s;
  h3_send_request = λ h headers fin s. (pos 0, s);
  h3_send_response = λ h id headers fin s. (pos 0, s);
  h3_send_body = λ h id body fin s. (negsuc 0, s);
  h3_send_goaway = λ h id s. (pos 0, s);
  backlog = λ s. 0;
}

pub next_part-reads :
    (id : ℕ) (bodies : List (ℕ × List ℕ)) (s : Feed)
    → let (len, buffer, t) = next_part id bodies s in
      t.arrivals ≡ (
        if (int_eq len (negsuc 0) || int_eq len (pos 0)) || is_neg len
        then s.arrivals
        else add_piece id (content (take (pos_part len) buffer)) s.arrivals)
next_part-reads id [] s = refl
next_part-reads id ((k, []) ∷ rest) s = refl
next_part-reads id ((k, b ∷ part) ∷ rest) s =
    let whole = take_all (suc (length part)) (b ∷ part) (omega arith) in
    elim (Bool-cases (k == id)) [
      | inl own ↦ ground (arith, own, whole)
      | inr other ↦ ground (arith, other)
    ]

pub poll_feed-ends :
    (h : Bool) (s : Feed)
    → int_eq (poll_feed h s).0 (negsuc 0) || is_neg (poll_feed h s).0 ≡ true
    → (poll_feed h s).2.arrivals ≡ s.arrivals
poll_feed-ends h s e = ground arith

pub poll_feed-observes :
    (h : Bool) (s : Feed)
    → int_eq (poll_feed h s).0 (negsuc 0) || is_neg (poll_feed h s).0 ≡ false
    → (poll_feed h s).2.arrivals ≡ observe (pos_part (poll_feed h s).0) (poll_feed h s).1 s.arrivals
poll_feed-observes h s e = ground arith

pub poll_feed-falls :
    (h : Bool) (s : Feed)
    → int_eq (poll_feed h s).0 (negsuc 0) || is_neg (poll_feed h s).0 ≡ false
    → (suc (length (poll_feed h s).2.events) ≤ length s.events)
      × (length (poll_feed h s).2.bodies ≤ length s.bodies)
poll_feed-falls h s e = ground arith

pub next_part-falls :
    (id : ℕ) (bodies : List (ℕ × List ℕ)) (s : Feed)
    → length bodies ≤ length s.bodies
    → let (len, buffer, t) = next_part id bodies s in
      (length t.events ≤ length s.events)
      × ((if (int_eq len (negsuc 0) || int_eq len (pos 0)) || is_neg len
            then length t.bodies
            else suc (length t.bodies))
          ≤ length s.bodies)
next_part-falls id [] s h = omega arith
next_part-falls id ((k, []) ∷ rest) s h = omega arith
next_part-falls id ((k, b ∷ part) ∷ rest) s h = ground arith

unfoldable pub feed-EventLaws : EventLaws feed
feed-EventLaws = record {
  view = λ s. s.arrivals;
  poll_ends = poll_feed-ends;
  poll_observes = poll_feed-observes;
  recv_reads = λ h id capacity s. next_part-reads id s.bodies s;
  shutdown_keeps = λ id how s. refl;
  close_keeps = λ reason s. refl;
}

pub le_refl : (n : ℕ) → n ≤ n
le_refl n = omega arith

pub nothing_added :
    (s : Feed) → (length s.events ≤ length s.events) × (length s.bodies ≤ length s.bodies)
nothing_added s = omega arith

unfoldable pub feed-FiniteLaws : FiniteLaws feed
feed-FiniteLaws = record {
  queued = λ s. length s.events;
  unread = λ s. length s.bodies;
  poll_falls = poll_feed-falls;
  recv_falls = λ h id capacity s. next_part-falls id s.bodies s (le_refl (length s.bodies));
  shutdown_adds_none = λ id how s. nothing_added s;
  close_adds_none = λ reason s. nothing_added s;
}
