-- ===== src/Allocator.antt =====
-- src/quicsend_quiche.cpp, "SendAllocator" and `QuicheSocket::Send`, with the classes of
-- include/quicsend_quiche.hpp. A buffer is known by its address, and the mutex makes each call one
-- step. The head of `free_buffers` is the back of the vector.
pub mod Ownership
use quicsend.Base.{
  ℕ, suc, ◌+◌, ◌-◌, ◌^◌, List, [], ◌∷◌, ◌++◌, Option, none, some, ltb, ◌==◌, if◌then◌else◌,
}
use quicsend.Wire.{u32}

abbrev pub max_datagram_send_size : ℕ
max_datagram_send_size = 1350

-- `fresh` is the address that `make_shared` returns next.
pub record SendAllocator : Type 0 where
  pub free_buffers : List ℕ
  pub free_buffers_count : ℕ
  pub fresh : ℕ

make_buffer : SendAllocator → ℕ × SendAllocator
make_buffer a = (a.fresh, record a { fresh = suc a.fresh })

take_back : List ℕ → SendAllocator → ℕ × SendAllocator
unfolding make_buffer
take_back [] a = make_buffer a
take_back (buffer ∷ rest) a = (
  buffer,
  record a { free_buffers = rest; free_buffers_count = u32 (a.free_buffers_count + 2 ^ 32 - 1) },
)

-- `SendAllocator::Allocate`.
unfoldable pub allocate : SendAllocator → ℕ × SendAllocator
unfolding take_back
allocate a = if ltb 0 a.free_buffers_count then take_back a.free_buffers a else make_buffer a

-- `SendAllocator::Free`.
unfoldable pub free : ℕ → SendAllocator → SendAllocator
free buffer a = record a {
  free_buffers = buffer ∷ a.free_buffers;
  free_buffers_count = u32 (a.free_buffers_count + 1);
}

-- The socket: its allocator, what the buffers hold, the sends that are not complete, and what has
-- left the socket, oldest first.
pub record Socket (Endpoint : Type 0) : Type 0 where
  pub local_endpoint : Endpoint
  pub allocator : SendAllocator
  pub payload : ℕ → List ℕ
  pub in_flight : List (ℕ × Endpoint)
  pub wire : List (List ℕ × Endpoint)

module _ {Endpoint : Type 0} where
  -- The write of `quiche_conn_send` into `buffer->Payload` and `buffer->Length`.
  unfoldable pub fill : ℕ → List ℕ → Socket Endpoint → Socket Endpoint
  fill buffer bytes s = record s { payload = λ b. if b == buffer then bytes else s.payload b }

  -- `QuicheSocket::Send` starts the send.
  unfoldable pub send : ℕ → Endpoint → Socket Endpoint → Socket Endpoint
  send buffer dest s = record s { in_flight = (buffer, dest) ∷ s.in_flight }

  abbrev pub remove_first : ℕ → List (ℕ × Endpoint) → List (ℕ × Endpoint)
  remove_first b [] = []
  remove_first b ((c, dest) ∷ rest) = if c == b then rest else (c, dest) ∷ remove_first b rest

  abbrev pub find_first : ℕ → List (ℕ × Endpoint) → Option Endpoint
  find_first b [] = none
  find_first b ((c, dest) ∷ rest) = if c == b then some dest else find_first b rest

  -- A send completes: the bytes that the buffer then holds are on the wire, and the handler frees
  -- the buffer, with or without an error.
  unfoldable pub complete : ℕ → Socket Endpoint → Socket Endpoint
  complete buffer s = elim (find_first buffer s.in_flight) [
    | none ↦ s
    | some dest ↦ record s {
      allocator = free buffer s.allocator;
      in_flight = remove_first buffer s.in_flight;
      wire = s.wire ++ (s.payload buffer, dest) ∷ [];
    }
  ]
