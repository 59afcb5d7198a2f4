-- ===== src/Config.antt =====
-- `CreateQuicheConfig` and the constructor of `QuicheSocket`, of src/quicsend_quiche.cpp: the calls
-- that configure quiche and the socket, in their order.
use quicsend.Base.{
  ℕ, ◌*◌, List, [], ◌∷◌, ◌++◌, Bool, true, not, Option, none, some, String, if◌then◌else◌,
}
use quicsend.Allocator.{max_datagram_send_size}

-- A call of `quiche_config_set_...` and the like, with its argument.
pub data ConfigCall : Type 0 where
  load_cert_chain_from_pem_file load_priv_key_from_pem_file : String → ConfigCall
  set_application_protos : ConfigCall
  set_max_idle_timeout set_max_recv_udp_payload_size set_max_send_udp_payload_size : ℕ → ConfigCall
  set_initial_max_data set_initial_max_stream_data_bidi_local : ℕ → ConfigCall
  set_initial_max_stream_data_bidi_remote set_initial_max_stream_data_uni : ℕ → ConfigCall
  set_initial_max_streams_bidi set_initial_max_streams_uni : ℕ → ConfigCall
  set_disable_active_migration : Bool → ConfigCall
  enable_early_data : ConfigCall
  enable_pacing : Bool → ConfigCall
  set_cc_algorithm_bbr : ConfigCall
  verify_peer : Bool → ConfigCall
  log_keys : ConfigCall

abbrev pub max_parallel_quic_streams : ℕ
max_parallel_quic_streams = 8

abbrev pub initial_max_data : ℕ
initial_max_data = 8 * 1024 * 1024

abbrev pub initial_max_stream_data : ℕ
initial_max_stream_data = 1 * 1024 * 1024

abbrev pub quic_idle_timeout_msec : ℕ
quic_idle_timeout_msec = 5000

abbrev pub quic_send_buffer_size : ℕ
quic_send_buffer_size = 8 * 1024 * 1024

-- `CreateQuicheConfig`; the argument says whether `quiche_config_new` gives a configuration. None of
-- the results of the calls is looked at.
unfoldable pub create_quiche_config : Bool → String → String → Option (List ConfigCall)
create_quiche_config made cert_path key_path =
    if not made
    then none
    else some (
        load_cert_chain_from_pem_file cert_path
        ∷ load_priv_key_from_pem_file key_path
        ∷ set_application_protos
        ∷ set_max_idle_timeout quic_idle_timeout_msec
        ∷ set_max_recv_udp_payload_size max_datagram_send_size
        ∷ set_max_send_udp_payload_size max_datagram_send_size
        ∷ set_initial_max_data initial_max_data
        ∷ set_initial_max_stream_data_bidi_local initial_max_stream_data
        ∷ set_initial_max_stream_data_bidi_remote initial_max_stream_data
        ∷ set_initial_max_stream_data_uni initial_max_stream_data
        ∷ set_initial_max_streams_bidi max_parallel_quic_streams
        ∷ set_initial_max_streams_uni max_parallel_quic_streams
        ∷ set_disable_active_migration true
        ∷ enable_early_data
        ∷ enable_pacing true
        ∷ set_cc_algorithm_bbr
        ∷ verify_peer true
        ∷ [])

-- What the constructor of `QuicheSocket` finds: whether the socket can be bound to its port, whether
-- the two configurations can be made, and whether SSLKEYLOGFILE is set.
pub record Surroundings : Type 0 where
  pub binds : Bool
  pub makes_config : Bool
  pub makes_h3_config : Bool
  pub has_keylog_file : Bool

-- How it ends: with the calls on the configuration, or `none` for a null pointer; with a call on a
-- null pointer; or with an exception, which leaves behind the configuration that was made, since the
-- destructor of an object that was not constructed does not run.
pub data Constructed : Type 0 where
  constructed : Option (List ConfigCall) → Constructed
  used_null : Constructed
  threw : Option (List ConfigCall) → Constructed

abbrev finish_socket : Bool → Option (List ConfigCall) → Constructed
finish_socket makes_h3_config config = if makes_h3_config then constructed config else threw config

-- The constructor.
unfoldable pub new_quiche_socket : Surroundings → String → String → Constructed
unfolding create_quiche_config
new_quiche_socket around cert_path key_path =
    let config = create_quiche_config around.makes_config cert_path key_path in
    if not around.binds
    then threw none
    else if around.has_keylog_file
    then elim config [
      | none ↦ used_null
      | some calls ↦ finish_socket around.makes_h3_config (some (calls ++ log_keys ∷ []))
    ]
    else finish_socket around.makes_h3_config config
