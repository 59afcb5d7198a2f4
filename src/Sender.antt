-- ===== src/Sender.antt =====
-- `QuicheSender` of src/quicsend_quiche.cpp: the connections that exist, under their connection ids
-- and under the numbers assigned to them, and the pass that its thread makes over them. The mutex
-- makes each call, and each pass, one step.
pub mod Registry
pub mod Pass
use quicsend.Base.{
  ℕ, List, [], ◌∷◌, Bool, true, false, ◌||◌, Option, none, some, if◌then◌else◌, lookup, insert,
  erase,
}
use quicsend.ConnectionId.{ConnectionId, cid_eq}

-- A `std::shared_ptr<QuicheConnection>`: the address, and the members of `settings_` that the maps
-- are about, which `Initialize` sets for good.
pub record Handle : Type 0 where
  pub address : ℕ
  pub assigned_id : ℕ
  pub dcid : ConnectionId

pub record Sender : Type 0 where
  pub connections : List (ConnectionId × Handle)
  pub connections_by_id : List (ℕ × Handle)

abbrev pub new_sender : Sender
new_sender = record { connections = []; connections_by_id = [] }

-- `connections_[dcid] = qc`.
unfoldable pub assign :
    ConnectionId → Handle → List (ConnectionId × Handle) → List (ConnectionId × Handle)
assign dcid qc [] = (dcid, qc) ∷ []
assign dcid qc ((key, old) ∷ rest) =
    if cid_eq key dcid then (key, qc) ∷ rest else (key, old) ∷ assign dcid qc rest

-- `Find(const ConnectionId&)`.
unfoldable pub find_dcid : ConnectionId → List (ConnectionId × Handle) → Option Handle
find_dcid dcid [] = none
find_dcid dcid ((key, qc) ∷ rest) = if cid_eq key dcid then some qc else find_dcid dcid rest

-- `Find(uint64_t)`.
unfoldable pub find_id : ℕ → Sender → Option Handle
find_id connection_id sender = lookup connection_id sender.connections_by_id

-- `Add`.
unfoldable pub add : Handle → Sender → Sender
add qc sender = record {
  connections = assign qc.dcid qc sender.connections;
  connections_by_id = insert qc.assigned_id qc sender.connections_by_id;
}

-- `reread` is what `connection->settings_.AssignedId` gives once the node of the map is erased that
-- `connection` refers to. That memory is freed by then, and nothing is known of what is read there.
module _ {S : Type 0} (reread : Handle → S → ℕ) (is_closed : Handle → S → Bool)
    (flush_egress : Handle → S → Bool × S) where
  -- The pass of `Loop` over the connections that are left: the maps, `send_fast` and the state after
  -- it. A closed connection goes out of the first map, and out of the second goes what the number
  -- leads to that is read after that; any other connection is flushed.
  unfoldable pub sweep :
      List (ConnectionId × Handle)
      → List (ℕ × Handle)
      → Bool
      → S
      → List (ConnectionId × Handle) × List (ℕ × Handle) × Bool × S
  sweep [] by_id send_fast s = ([], by_id, send_fast, s)
  sweep ((key, qc) ∷ rest) by_id send_fast s =
      let without = sweep rest (erase (reread qc s) by_id) send_fast s in
      let (sent, s') = flush_egress qc s in
      let (rest', by_id', send_fast', s'') = sweep rest by_id (send_fast || sent) s' in
      if is_closed qc s then without else ((key, qc) ∷ rest', by_id', send_fast', s'')

  -- One turn of `Loop`: the sender, `send_fast`, which chooses the next interval, and the state.
  unfoldable pub tick : Sender → S → Sender × Bool × S
  tick sender s =
      let (connections, by_id, send_fast, s') =
        sweep sender.connections sender.connections_by_id false s in
      (record { connections = connections; connections_by_id = by_id }, send_fast, s')
