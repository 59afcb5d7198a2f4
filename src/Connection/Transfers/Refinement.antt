-- ===== src/Connection/Transfers/Refinement.antt =====
-- The transfers of bodies against what the program that sends them may count on: each stream carries
-- one body, from the call that gives it on.
use quicsend.Base.{
  ℕ, ◌≡◌, refl, sym, ap, subst, ◌∙◌, ◌≢◌, inl, inr, List, [], ◌∷◌, ◌++◌, Bool, true, false, arith,
  pos_part, length, drop, ltb, is_neg, ◌==◌, Bool-cases, if◌then◌else◌, lookup, insert,
}
use quicsend.Quiche.{Quiche}
use quicsend.Quiche.Laws.{BodyLaws}
use quicsend.Connection.Streams.{OutgoingStream}
use quicsend.Connection.Transfers.{get_outgoing_stream, flush_transfers, offer_body}
use quicsend.Connection.Transfers.Delivery.{
  pending, Absent, Keyed, flush_transfers_delivers, flush_transfers-Keyed,
}
use quicsend.Connection.Transfers.Offer.{offer_body_delivers}

Absent-insert :
    (i j : ℕ) (stream : OutgoingStream) (streams : List (ℕ × OutgoingStream))
    → i ≢ j
    → Absent j streams
    → Absent j (insert i stream streams)
unfolding insert
Absent-insert i j stream [] ne h = (ne, tt)
Absent-insert i j stream ((l, other) ∷ rest) ne h =
    ground (arith, h, Absent-insert i j stream rest ne h.1)

Keyed-insert :
    (i : ℕ) (stream : OutgoingStream) (streams : List (ℕ × OutgoingStream))
    → stream.id ≡ i
    → Keyed streams
    → Keyed (insert i stream streams)
unfolding insert
Keyed-insert i stream [] e w = (e, tt, tt)
Keyed-insert i stream ((j, other) ∷ rest) e w = elim (Bool-cases (j == i)) [
  | inl own ↦ let same : j ≡ i = ground arith in rw own (e ∙ sym same, w.1, w.2)
  | inr ne ↦
      rw ne (
        w.0,
        Absent-insert i j stream rest (λ f. ground arith) w.1,
        Keyed-insert i stream rest e w.2,
      )
]

get_outgoing_stream-id :
    (i : ℕ) (streams : List (ℕ × OutgoingStream))
    → Keyed streams
    → (get_outgoing_stream i streams).id ≡ i
unfolding get_outgoing_stream lookup
get_outgoing_stream-id i [] w = refl
get_outgoing_stream-id i ((j, stream) ∷ rest) w = elim (Bool-cases (j == i)) [
  | inl own ↦ let same : j ≡ i = ground arith in rw (get_outgoing_stream, own) (w.0 ∙ same)
  | inr ne ↦ rw (get_outgoing_stream, ne) (get_outgoing_stream-id i rest w.2)
]

second_empty : (xs ys : List ℕ) → xs ++ ys ≡ [] → ys ≡ []
second_empty [] ys h = h
second_empty (x ∷ xs) ys h = absurd (ground (arith, h))

-- What the calls of the program have given to each stream.
abbrev pub Given : Type 0
Given = ℕ → List ℕ

abbrev give : ℕ → List ℕ → Given → Given
give id body given = λ k. given k ++ (if id == k then body else [])

-- The calls that give a stream its body, in their order: the id of the stream, and the body.
abbrev pub Calls : Type 0
Calls = List (ℕ × List ℕ)

-- The specification, with the call that the program makes in a step: a stream is given the body of
-- that call, as a whole and once, and otherwise nothing happens.
pub data SpecStep : Given → Calls → Given → Type 0 where
  gives :
      {given : Given} (id : ℕ) (body : List ℕ)
      → given id ≡ []
      → SpecStep given ((id, body) ∷ []) (give id body given)
  nothing : {given : Given} → SpecStep given [] given

pub data SpecSteps (given : Given) : Calls → Given → Type 0 where
  spec_none : SpecSteps given [] given
  spec_then :
      {u v : Given} {past now : Calls}
      → SpecSteps given past u
      → SpecStep u now v
      → SpecSteps given (past ++ now) v

-- The part of a connection that sends bodies.
pub record Transfers (quiche : Quiche) : Type 0 where
  pub streams : List (ℕ × OutgoingStream)
  pub transport : quiche.State

module _ (quiche : Quiche) (http3 : Bool) where
  unfoldable pub flushed : Transfers quiche → Transfers quiche
  flushed c =
      let (streams, s) = flush_transfers quiche http3 c.streams c.transport in
      record { streams = streams; transport = s }

  unfoldable pub given_body : ℕ → List ℕ → Transfers quiche → Transfers quiche
  given_body id body c =
      let (ok, streams, s) = offer_body quiche http3 id body c.streams c.transport in
      record { streams = streams; transport = s }

module _ (quiche : Quiche) (laws : BodyLaws quiche) where
  open laws use {accepted}

  -- What the library has accepted and what waits.
  unfoldable pub view : Transfers quiche → Given
  view c = λ k. accepted c.transport k ++ pending k c.streams

module _ (quiche : Quiche) (laws : BodyLaws quiche) (http3 : Bool) where
  open laws use {accepted}

  -- A step of the code: `FlushTransfers`, the sends of `SendBody` on a stream that has been given
  -- nothing, or a call of the library that has nothing to do with bodies.
  pub data Step (c : Transfers quiche) : Calls → Transfers quiche → Type 0 where
    flushes : Step c [] (flushed quiche http3 c)
    offers :
        (id : ℕ) (body : List ℕ)
        → view quiche laws c id ≡ []
        → Step c ((id, body) ∷ []) (given_body quiche http3 id body c)
    drives :
        (s : quiche.State)
        → ((k : ℕ) → accepted s k ≡ accepted c.transport k)
        → Step c [] (record c { transport = s })

  -- So many steps, one after the other, with the calls that they make.
  pub data Steps (c : Transfers quiche) : Calls → Transfers quiche → Type 0 where
    none_yet : Steps c [] c
    and_then :
        {u v : Transfers quiche} {past now : Calls}
        → Steps c past u
        → Step u now v
        → Steps c (past ++ now) v

  same_view :
      (c c' : Transfers quiche)
      → ((k : ℕ) → view quiche laws c' k ≡ view quiche laws c k)
      → SpecStep (view quiche laws c) [] (view quiche laws c')
  same_view c c' h =
      subst (λ (g : Given). SpecStep (view quiche laws c) [] g) (λ i k. sym (h k) i) nothing

  -- Where a stream has been given nothing, nothing waits on it.
  none_waits : (c : Transfers quiche) (k : ℕ) → view quiche laws c k ≡ [] → pending k c.streams ≡ []
  unfolding view
  none_waits c k h = second_empty (accepted c.transport k) (pending k c.streams) h

  offer_body-Keyed :
      (id : ℕ) (body : List ℕ) (c : Transfers quiche)
      → Keyed c.streams
      → Keyed (given_body quiche http3 id body c).streams
  unfolding offer_body given_body
  offer_body-Keyed id body c w =
      let (r, s) = quiche.h3_send_body http3 id body false c.transport in
      elim (Bool-cases (ltb (pos_part r) (length body))) [
        | inl part ↦ rw part (
            Keyed-insert id
              (record (get_outgoing_stream id c.streams) {
                send_offset = 0;
                buffer = drop (pos_part r) body;
              })
              c.streams (get_outgoing_stream-id id c.streams w) w)
        | inr all ↦ elim (Bool-cases (is_neg (quiche.h3_send_body http3 id [] true s).0)) [
          | inl neg ↦ rw (all, neg) w
          | inr fin ↦ rw (all, fin) w
        ]
      ]

  -- A step of the code is a step of the specification.
  Step-refines :
      {c c' : Transfers quiche} {now : Calls}
      → Keyed c.streams
      → Step c now c'
      → SpecStep (view quiche laws c) now (view quiche laws c') × Keyed c'.streams
  unfolding view flushed given_body
  Step-refines {c} w flushes = (
    same_view c (flushed quiche http3 c)
        (λ k. flush_transfers_delivers quiche laws http3 c.streams c.transport k w),
    flush_transfers-Keyed quiche laws http3 c.streams c.transport w,
  )
  Step-refines {c} w (offers id body fresh) = (
    subst (λ (g : Given). SpecStep (view quiche laws c) ((id, body) ∷ []) g)
        (λ i k.
          sym
            (offer_body_delivers quiche laws http3 id k body c.streams c.transport
              (none_waits c id fresh))
            i)
        (gives id body fresh),
    offer_body-Keyed id body c w,
  )
  Step-refines {c} w (drives s same) = (
    same_view c (record c { transport = s }) (λ k. ap (λ xs. xs ++ pending k c.streams) (same k)),
    w,
  )

  -- From every connection with one outgoing stream per stream id, every sequence of steps is a
  -- sequence of steps of the specification with the same calls, in which each call gives the
  -- whole of its body to a stream that has been given nothing, and otherwise nothing changes:
  -- what the library has accepted on each stream followed by what waits there is what was given.
  -- The steps of the code are FlushTransfers, the sends of SendBody on a stream that was given
  -- nothing, and any call of the library that leaves what it has accepted.
  pub Steps-refine :
      {c c' : Transfers quiche} {calls : Calls}
      → Keyed c.streams
      → Steps c calls c'
      → SpecSteps (view quiche laws c) calls (view quiche laws c')
  Steps-refine w steps = (refine w steps).0
    where
      refine :
          {c c' : Transfers quiche} {calls : Calls}
          → Keyed c.streams
          → Steps c calls c'
          → SpecSteps (view quiche laws c) calls (view quiche laws c') × Keyed c'.streams
      refine w none_yet = (spec_none, w)
      refine w (and_then steps step) =
          let (before, w') = refine w steps in
          let (last, w'') = Step-refines w' step in (spec_then before last, w'')
