-- ===== src/Allocator/Ownership.antt =====
-- A send buffer has one owner: the pool of free buffers, a send in flight, or whoever holds it.
use quicsend.Base.{
  ℕ, suc, ◌+◌, ◌≤◌, ◌≡◌, refl, ◌⊎◌, inl, inr, List, [], ◌∷◌, some, arith, Bool-cases, Option-cases,
  ◌==◌, ltb, if◌then◌else◌,
}
use quicsend.Allocator.{
  SendAllocator, allocate, take_back, make_buffer, free, Socket, fill, send, complete, find_first,
  remove_first,
}

abbrev pub occurs : ℕ → List ℕ → ℕ
occurs b [] = 0
occurs b (c ∷ rest) = (if c == b then 1 else 0) + occurs b rest

-- What `Allocate` returns comes out of the pool, or is a new buffer.
abbrev Allocated : SendAllocator → ℕ × SendAllocator → Type 0
Allocated a (b, a') =
    (((c : ℕ) → occurs c a.free_buffers ≡ (if b == c then 1 else 0) + occurs c a'.free_buffers)
      × (a'.fresh ≡ a.fresh))
    ⊎ ((b ≡ a.fresh) × (a'.free_buffers ≡ a.free_buffers) × (a'.fresh ≡ suc a.fresh))

take_back-Allocated :
    (buffers : List ℕ) (a : SendAllocator)
    → a.free_buffers ≡ buffers
    → Allocated a (take_back buffers a)
unfolding take_back make_buffer
take_back-Allocated [] a e = inr (refl, refl, refl)
take_back-Allocated (b ∷ rest) a e = inl ((λ c. rw e refl), refl)

allocate-Allocated : (a : SendAllocator) → Allocated a (allocate a)
unfolding allocate make_buffer
allocate-Allocated a = elim (Bool-cases (ltb 0 a.free_buffers_count)) [
  | inl some_free ↦ rw some_free (take_back-Allocated a.free_buffers a refl)
  | inr empty ↦ rw empty (inr (refl, refl, refl))
]

module _ {Endpoint : Type 0} where
  abbrev pub flights : ℕ → List (ℕ × Endpoint) → ℕ
  flights b [] = 0
  flights b ((c, dest) ∷ rest) = (if c == b then 1 else 0) + flights b rest

  -- The sends of a buffer that are not complete.
  abbrev pub flying : ℕ → Socket Endpoint → ℕ
  flying b s = flights b s.in_flight

  abbrev pub owners : ℕ → List ℕ → Socket Endpoint → ℕ
  owners b held s = occurs b s.allocator.free_buffers + flying b s + occurs b held

  -- No buffer has two owners, and a buffer that is still to be made has none. `held` is what the
  -- callers of `Allocate` hold.
  pub record Owned (held : List ℕ) (s : Socket Endpoint) : Type 0 where
    pub once : (b : ℕ) → owners b held s ≤ 1
    pub unmade : (b : ℕ) → s.allocator.fresh ≤ b → owners b held s ≡ 0

  pub allocate-Owned :
      (held : List ℕ) (s : Socket Endpoint)
      → Owned held s
      → let (b, a) = allocate s.allocator in Owned (b ∷ held) (record s { allocator = a })
  allocate-Owned held s o = elim (allocate-Allocated s.allocator) [
    | inl (moved, same) ↦ record {
      once = λ c. omega (arith, moved c, o.once c);
      unmade = λ c l. omega (arith, moved c, same, o.unmade c (rw same at l));
    }
    | inr (new, same, more) ↦ record {
      once = λ c. ground (arith, o.once c, o.unmade c);
      unmade = λ c l. ground (arith, o.unmade c);
    }
  ]

  pub send-Owned :
      (b : ℕ) (dest : Endpoint) (held : List ℕ) (s : Socket Endpoint)
      → Owned (b ∷ held) s
      → Owned held (send b dest s)
  unfolding send
  send-Owned b dest held s o = record {
    once = λ c. omega (arith, o.once c);
    unmade = λ c l. omega (arith, o.unmade c l);
  }

  pub fill-Owned :
      (b : ℕ) (bytes held : List ℕ) (s : Socket Endpoint)
      → Owned held s
      → Owned held (fill b bytes s)
  unfolding fill
  fill-Owned b bytes held s o = record { once = o.once; unmade = o.unmade }

  pub free-Owned :
      (b : ℕ) (held : List ℕ) (s : Socket Endpoint)
      → Owned (b ∷ held) s
      → Owned held (record s { allocator = free b s.allocator })
  unfolding free
  free-Owned b held s o = record {
    once = λ c. omega (arith, o.once c);
    unmade = λ c l. omega (arith, o.unmade c l);
  }

  flights-remove_first :
      (b c : ℕ) (dest : Endpoint) (sends : List (ℕ × Endpoint))
      → find_first b sends ≡ some dest
      → flights c sends ≡ (if b == c then 1 else 0) + flights c (remove_first b sends)
  flights-remove_first b c dest [] e = absurd (ground arith)
  flights-remove_first b c dest ((d, other) ∷ rest) e =
      ground (arith, flights-remove_first b c dest rest)

  -- The completion of a send keeps this: no send buffer has two owners among the pool, the sends
  -- in flight and the buffers that are held, and a buffer that is still to be made has none.
  pub complete-Owned :
      (b : ℕ) (held : List ℕ) (s : Socket Endpoint) → Owned held s → Owned held (complete b s)
  unfolding complete free
  complete-Owned b held s o = elim (Option-cases (find_first b s.in_flight)) [
    | inl none_flies ↦ rw (none_flies, complete) o
    | inr (dest, e) ↦
        rw (e, complete)
          (record {
            once = λ c. omega (arith, flights-remove_first b c dest s.in_flight e, o.once c);
            unmade =
                λ c l. omega (arith, flights-remove_first b c dest s.in_flight e, o.unmade c l);
          })
  ]

  -- To write into a buffer that is held does not touch the payload of one in flight.
  pub fill-flying :
      (b c : ℕ) (bytes held : List ℕ) (s : Socket Endpoint)
      → Owned (b ∷ held) s
      → 1 ≤ flying c s
      → (fill b bytes s).payload c ≡ s.payload c
  unfolding fill
  fill-flying b c bytes held s o flies = ground (arith, o.once c)
