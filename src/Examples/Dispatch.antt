-- ===== src/Examples/Dispatch.antt =====
-- The server's dispatch and the sender's maps at concrete inputs.
use quicsend.Base.{ℕ, ◌≡◌, refl, ◌⊎◌, [], ◌∷◌, false, arith, replicate, pos, lookup, insert, ◌==◌}
use quicsend.ConnectionId.{ConnectionId, IsValid}
use quicsend.Wire.{read_uint16_le, read_uint32_le}
use quicsend.Asio.Concrete.{Host, alice, bob, hosts}
use quicsend.Token.{read_token}
use quicsend.Token.Validation.{TokenOf}
use quicsend.Sockaddr.{to_sockaddr, sockaddr_to_endpoint}
use quicsend.Allocator.{Socket, allocate, free, fill, send}
use quicsend.Connection.Events
use quicsend.Connection.Egress
use quicsend.Sender.{Handle, new_sender, add, assign, find_dcid}
use quicsend.Sender.Registry.{Paired, add-Paired}
use quicsend.Server.{QuicSendServerSettings, construct}
use quicsend.Server.Dispatch.{
  new_server, Packets, Handling, handled, QuicSendServer, server_on_datagram, greet, admit, accept,
  register, initialize, deliver,
}
use quicsend.Server.Dispatch.Admission.{Numbered, newcomer, server_on_datagram-admits}
use quicsend.Server.Replies.{Pass, server_close}
use quicsend.Server.Replies.Reachable.{Holds, Steps-Holds, none_yet, and_then, datagram, closes}
use quicsend.Examples.Transport.{link}

abbrev client_id : ConnectionId
client_id = record { id = 4 ∷ 8 ∷ 15 ∷ 16 ∷ replicate 12 0; length = 4 }

abbrev scratch : ConnectionId
scratch = record { id = replicate 16 0xcc; length = 16 }

-- Every packet is an initial packet of alice with her token.
abbrev packets : Packets
packets = record {
  header_info = λ bytes. (
    pos 0,
    record {
      version = 1;
      scid = scratch;
      dcid = client_id;
      token = 0xdc ∷ 4 ∷ 1 ∷ 81 ∷ 17 ∷ 4 ∷ 8 ∷ 15 ∷ 16 ∷ 1 ∷ 0 ∷ 0 ∷ 127 ∷ [];
    },
  );
  version_is_supported = λ version. version == 1;
  negotiate_version = λ scid dcid. (pos 1, 1 ∷ []);
  retry = λ scid dcid new_scid token. (pos 1, 2 ∷ []);
}

abbrev quiet_socket : Socket Host
quiet_socket = record {
  local_endpoint = bob;
  allocator = record { free_buffers = []; free_buffers_count = 0; fresh = 0 };
  payload = λ b. [];
  in_flight = [];
  wire = [];
}

abbrev settings : QuicSendServerSettings
settings = record { authorization = "Bearer token"; port = 4433; key_path = "k"; cert_path = "c" }

fresh_server : QuicSendServer hosts link
fresh_server = record {
  host = record { app = construct settings; socket = quiet_socket; links = [] };
  sender = new_sender;
  next_assigned_id = 0;
  fresh = 0;
  closed = false;
}

abbrev or_else : {S : Type 0} → Handling S → S → S
or_else (handled s) t = s
or_else _ t = t

abbrev outcome : Handling (QuicSendServer hosts link)
outcome = server_on_datagram hosts link packets 2 2 scratch scratch (1 ∷ []) alice fresh_server

abbrev server_after : QuicSendServer hosts link
server_after = or_else outcome fresh_server

outcome-handled : outcome ≡ handled server_after
unfolding fresh_server server_on_datagram greet admit accept register initialize deliver read_token
    read_uint16_le read_uint32_le to_sockaddr sockaddr_to_endpoint find_dcid add assign allocate
    free fill send Events.on_datagram Events.recv Events.received Events.open_h3 Events.settle
    Events.process_h3_events Egress.flush_egress Egress.flush_egress_with Egress.flush_bodies
    Egress.drain Egress.egress_loop Egress.egress_round Egress.tick_timeout lookup insert
    quicsend.Connection.Transfers.flush_transfers quicsend.Connection.Transfers.transfer_loop
    quicsend.Connection.Responses.flush_cached_responses
outcome-handled = refl

scratch-IsValid : IsValid scratch
scratch-IsValid = record { sized = refl; within = omega arith }

server_on_datagram-admits_example :
    (server_after.sender ≡ fresh_server.sender)
    ⊎ ((server_after.sender ≡ add (newcomer hosts link client_id fresh_server) fresh_server.sender)
        × (c : ConnectionId) × TokenOf hosts alice c
            (0xdc ∷ 4 ∷ 1 ∷ 81 ∷ 17 ∷ 4 ∷ 8 ∷ 15 ∷ 16 ∷ 1 ∷ 0 ∷ 0 ∷ 127 ∷ []))
server_on_datagram-admits_example =
    server_on_datagram-admits hosts link packets 2 2 scratch scratch (1 ∷ []) alice fresh_server
      server_after scratch-IsValid (omega arith) outcome-handled

fresh_server-Numbered : Numbered hosts link fresh_server
unfolding fresh_server lookup
fresh_server-Numbered = record { paired = record { same = λ id. refl; distinct = tt }; up_to = tt }

abbrev first : Handle
first = record { address = 0; assigned_id = 1; dcid = client_id }

abbrev second : Handle
second = record { address = 1; assigned_id = 2; dcid = scratch }

one_sender-Paired : Paired (add first new_sender)
unfolding find_dcid lookup
one_sender-Paired =
    add-Paired first new_sender refl tt (record { same = λ id. refl; distinct = tt })

-- What is read from an erased node is the number of the connection.
abbrev own_number : Handle → Pass hosts link → ℕ
own_number qc pass = qc.assigned_id

-- A datagram and a closing.
Steps-Holds_example : Holds hosts link own_number 2 (server_close hosts link 1 server_after)
unfolding fresh_server new_server
Steps-Holds_example =
    Steps-Holds hosts link own_number (λ qc u. refl) settings quiet_socket 2
      (server_close hosts link 1 server_after) (omega arith)
      (and_then
        (and_then none_yet (datagram packets 2 2 scratch scratch (1 ∷ []) alice outcome-handled))
        (closes 1))
