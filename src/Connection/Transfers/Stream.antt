-- ===== src/Connection/Transfers/Stream.antt =====
-- One round of the loop of `FlushTransfers`, over one stream.
use quicsend.Base.{
  ℕ, ◌+◌, ◌-◌, ◌≡◌, refl, sym, ap, ◌∙◌, ◌≢◌, ◌⊎◌, inl, inr, List, [], ◌++◌, append-nil,
  append_assoc, Bool, true, false, arith, ℤ, pos_part, is_neg, length, take, drop, take-append-drop,
  drop-drop, take_nil, drop_all, take_all, length-drop, ltb, leb, Bool-cases,
}
use quicsend.Quiche.{Quiche}
use quicsend.Quiche.Laws.{BodyLaws}
use quicsend.Connection.Streams.{OutgoingStream}
use quicsend.Connection.Transfers.{
  Verdict, stop, go_on, completed, send_fin, after_send, transfer_stream,
}

-- What a stream still has to hand over.
abbrev pub left : OutgoingStream → List ℕ
left stream = drop stream.send_offset stream.buffer

module _ (quiche : Quiche) (laws : BodyLaws quiche) (http3 : Bool) where
  open laws use {accepted, finished}

  -- The outcome `r` of a round over `stream` in the state `s`: nothing is lost or sent twice, no
  -- other stream is touched, and FIN goes out only behind the last byte.
  pub record Hands (stream : OutgoingStream) (s : quiche.State)
      (r : Verdict × OutgoingStream × quiche.State) : Type 0 where
    pub same_id : r.1.id ≡ stream.id
    pub conserved : accepted r.2 stream.id ++ left r.1 ≡ accepted s stream.id ++ left stream
    pub apart :
        (k : ℕ) → stream.id ≢ k → (accepted r.2 k ≡ accepted s k) × (finished r.2 k ≡ finished s k)
    pub fin_last : finished r.2 stream.id ≡ true → (finished s stream.id ≡ true) ⊎ (left r.1 ≡ [])
    pub done : r.0 ≡ completed → left r.1 ≡ []

  abbrev sent : ℕ → List ℕ → Bool → quiche.State → ℤ × quiche.State
  sent id body fin s = quiche.h3_send_body http3 id body fin s

  refused-Hands :
      (stream : OutgoingStream) (body : List ℕ) (fin : Bool) (s : quiche.State)
      → is_neg (sent stream.id body fin s).0 ≡ true
      → Hands stream s (stop, stream, (sent stream.id body fin s).1)
  refused-Hands stream body fin s neg =
      let same = λ (k : ℕ). laws.body_refused http3 stream.id body fin s k neg in
      record {
        same_id = refl;
        conserved = rw ((same stream.id).0);
        apart = λ k _. same k;
        fin_last = λ h. inl (sym (same stream.id).1 ∙ h);
        done = λ h. cc;
      }

  apart-sent :
      (id k : ℕ) (body : List ℕ) (fin : Bool) (s : quiche.State)
      → is_neg (sent id body fin s).0 ≡ false
      → id ≢ k
      → (accepted (sent id body fin s).1 k ≡ accepted s k)
        × (finished (sent id body fin s).1 k ≡ finished s k)
  apart-sent id k body fin s taken ne = ground (arith, laws.body_taken http3 id body fin s k taken)

  accepted-sent :
      (id : ℕ) (body : List ℕ) (fin : Bool) (s : quiche.State)
      → is_neg (sent id body fin s).0 ≡ false
      → accepted (sent id body fin s).1 id
        ≡ accepted s id ++ take (pos_part (sent id body fin s).0) body
  accepted-sent id body fin s taken = ground (arith, laws.body_taken http3 id body fin s id taken)

  finished-sent :
      (id : ℕ) (body : List ℕ) (s : quiche.State)
      → is_neg (sent id body false s).0 ≡ false
      → finished (sent id body false s).1 id ≡ finished s id
  finished-sent id body s taken = ground (arith, laws.body_taken http3 id body false s id taken)

  accepted-send_fin :
      (id : ℕ) (s : quiche.State)
      → is_neg (sent id [] true s).0 ≡ false
      → accepted (sent id [] true s).1 id ≡ accepted s id
  accepted-send_fin id s taken =
      rw (accepted-sent id [] true s taken, take_nil (pos_part (sent id [] true s).0))
        (append-nil (accepted s id))

  send_fin-Hands :
      (stream : OutgoingStream) (s : quiche.State)
      → left stream ≡ []
      → Hands stream s (send_fin quiche http3 stream s)
  unfolding send_fin
  send_fin-Hands stream s e = elim (Bool-cases (is_neg (sent stream.id [] true s).0)) [
    | inl neg ↦ rw neg (refused-Hands stream [] true s neg)
    | inr taken ↦ rw taken (record {
      same_id = refl;
      conserved = rw (accepted-send_fin stream.id s taken);
      apart = λ k ne. apart-sent stream.id k [] true s taken ne;
      fin_last = λ h. inr e;
      done = λ h. e;
    })
  ]

  abbrev cleared : OutgoingStream → OutgoingStream
  cleared stream = record stream { send_offset = 0; buffer = [] }

  -- Once all that was left is taken, FIN is the rest of the round.
  then_fin :
      (stream : OutgoingStream) (s s' : quiche.State)
      → accepted s' stream.id ≡ accepted s stream.id ++ left stream
      → finished s' stream.id ≡ finished s stream.id
      → ((k : ℕ) → stream.id ≢ k → (accepted s' k ≡ accepted s k) × (finished s' k ≡ finished s k))
      → Hands stream s (send_fin quiche http3 (cleared stream) s')
  then_fin stream s s' taken same others =
      let fin = send_fin-Hands (cleared stream) s' refl in
      record {
        same_id = fin.same_id;
        conserved = fin.conserved ∙ append-nil (accepted s' stream.id) ∙ taken;
        apart =
            λ k ne. ((fin.apart k ne).0 ∙ (others k ne).0, (fin.apart k ne).1 ∙ (others k ne).1);
        fin_last = λ h. elim (fin.fin_last h) [ inl f ↦ inl (sym same ∙ f) | inr l ↦ inr l ];
        done = fin.done;
      }

  partly-Hands :
      (stream : OutgoingStream) (s : quiche.State)
      → is_neg (sent stream.id (left stream) false s).0 ≡ false
      → Hands stream s (
        go_on,
        record stream {
          send_offset = stream.send_offset + pos_part (sent stream.id (left stream) false s).0;
        },
        (sent stream.id (left stream) false s).1,
      )
  partly-Hands stream s taken =
      let n = pos_part (sent stream.id (left stream) false s).0 in
      record {
        same_id = refl;
        conserved = rw (
          accepted-sent stream.id (left stream) false s taken,
          ← drop-drop stream.send_offset n stream.buffer,
          append_assoc (accepted s stream.id) (take n (left stream)) (drop n (left stream)),
          take-append-drop n (left stream),
        );
        apart = λ k ne. apart-sent stream.id k (left stream) false s taken ne;
        fin_last = λ h. inl (sym (finished-sent stream.id (left stream) s taken) ∙ h);
        done = λ h. cc;
      }

  -- A send of what is left, of which `r` bytes are taken.
  after_send-Hands :
      (stream : OutgoingStream) (s : quiche.State)
      → let out = sent stream.id (left stream) false s in
        Hands stream s
          (after_send quiche http3 out.0 (length stream.buffer - stream.send_offset) stream out.1)
  unfolding after_send
  after_send-Hands stream s =
      let body = left stream in
      let n = pos_part (sent stream.id body false s).0 in
      elim (Bool-cases (is_neg (sent stream.id body false s).0)) [
        | inl neg ↦ rw neg (refused-Hands stream body false s neg)
        | inr taken ↦ elim (Bool-cases (ltb n (length stream.buffer - stream.send_offset))) [
          | inl part ↦ rw (taken, part) (partly-Hands stream s taken)
          | inr all ↦
              let whole : take n body ≡ body =
                take_all n body (ground (arith, length-drop stream.send_offset stream.buffer)) in
              rw (taken, all)
                (then_fin stream s (sent stream.id body false s).1
                  (accepted-sent stream.id body false s taken
                    ∙ ap (λ t. accepted s stream.id ++ t) whole)
                  (finished-sent stream.id body s taken)
                  (λ k ne. apart-sent stream.id k body false s taken ne))
        ]
      ]

  -- Whatever the library answers, a round hands bytes over in order, and FIN behind the last.
  pub transfer_stream-Hands :
      (stream : OutgoingStream) (s : quiche.State)
      → Hands stream s (transfer_stream quiche http3 stream s)
  unfolding transfer_stream
  transfer_stream-Hands stream s =
      elim (Bool-cases (leb (length stream.buffer - stream.send_offset) 0)) [
        | inl none_left ↦
            rw none_left
              (send_fin-Hands stream s (drop_all stream.send_offset stream.buffer (ground arith)))
        | inr more ↦ rw more (after_send-Hands stream s)
      ]
