-- ===== src/Worker/Connections.antt =====
-- `struct connection` of src/tcpkali_connection.h, `struct loop_arguments` of src/tcpkali_engine.c
-- and its list of open connections. A pointer to a connection is the descriptor of its socket.
-- Without --ssl `conn_blocked` stays 0 and has no field. Times are natural numbers of one unit.
use tcpkali.Base.{ℕ, Bool, List, [], ◌∷◌, Option, none, some, ◌==◌, if◌then◌else◌}
use tcpkali.Transport.Payload.{DataSpec}
use tcpkali.Engine.Addresses.{RemoteStats}
use tcpkali.Engine.Channel.{ConnWish}
use tcpkali.Worker.Traffic.{TrafficStats}

pub data ConnType : Type 0 where
  conn_outgoing conn_incoming conn_acceptor : ConnType

pub data ConnState : Type 0 where
  connected connecting : ConnState

pub data WsState : Type 0 where
  sending_http_upgrade ws_established : WsState

-- `bandwidth_limit_t`: whether `bytes_per_second` is not negative, and `minimal_move_size`.
pub record BandwidthLimit : Type 0 where
  pub is_set : Bool
  pub minimal_move_size : ℕ

-- `value_base` of `rate_spec_t`.
pub data RateBase : Type 0 where
  unlimited bytes_per_second messages_per_second : RateBase

pub record Connection : Type 0 where
  pub sockfd : ℕ
  pub timer_started : Bool
  pub is_passive : Bool  -- whether the watcher calls `passive_websocket_cb`
  pub write_offset : ℕ
  pub data_spec : DataSpec
  pub traffic_ongoing : TrafficStats
  pub traffic_reported : TrafficStats
  pub avg_message_size : ℕ
  pub bytes_leftovers : ℕ
  pub channel_eol_point : ℕ
  pub send_limit : BandwidthLimit
  pub recv_limit : BandwidthLimit
  pub conn_wish : ConnWish
  pub conn_type : ConnType
  pub conn_state : ConnState
  pub ws_state : WsState
  pub remote_index : ℕ  -- the 16 bits of the int16_t
  pub connection_initiated : ℕ
  pub sent_timestamps : Option (List ℕ)  -- the ring, oldest first
  pub message_bytes_credit : ℕ

-- The parts of `struct engine_params` that the callbacks read.
pub record Params : Type 0 where
  pub n_remote_addresses : ℕ
  pub n_source_addresses : ℕ
  pub channel_lifetime : Option ℕ  -- `none` is INFINITY
  pub connect_timeout : ℕ
  pub delay_send : ℕ
  pub epoch : ℕ
  pub channel_send_rate : RateBase
  pub channel_recv_rate : RateBase
  pub listen_mode_snd : Bool  -- `listen_mode & _LMODE_SND_MASK`
  pub websocket_enable : Bool
  pub message_marker : Bool
  pub write_combine : Bool
  pub dump_one : Bool  -- `dump_setting & DS_DUMP_ONE`

pub record Worker : Type 0 where
  pub params : Params
  pub thread_no : ℕ
  pub address_offset : ℕ
  pub remote_stats : ℕ → RemoteStats
  pub lifetime_timer : Option ℕ  -- when `channel_lifetime_timer` is due
  pub dump_connect_fd : ℕ
  pub open_conns : List Connection
  pub worker_connections_initiated : ℕ
  pub worker_connections_accepted : ℕ
  pub worker_connection_failures : ℕ
  pub worker_connection_timeouts : ℕ
  pub worker_traffic_stats : TrafficStats
  pub outgoing_connecting : ℕ
  pub outgoing_established : ℕ
  pub incoming_established : ℕ
  pub connections_counter : ℕ

-- A callback gets its connection from the watcher inside it.
unfoldable pub find : ℕ → List Connection → Option Connection
find fd [] = none
find fd (c ∷ cs) = if c.sockfd == fd then some c else find fd cs

-- A connection that was changed in place.
unfoldable pub put : Connection → List Connection → List Connection
put d [] = []
put d (c ∷ cs) = let rest = put d cs in if c.sockfd == d.sockfd then d ∷ cs else c ∷ rest

-- TAILQ_REMOVE.
unfoldable pub remove : ℕ → List Connection → List Connection
remove fd [] = []
remove fd (c ∷ cs) = let rest = remove fd cs in if c.sockfd == fd then cs else c ∷ rest

-- How a callback ends: it goes on, the process ends with a status, or an assertion fails or an index
-- is out of range.
pub data Outcome {ℓ} (A : Type ℓ) : Type ℓ where
  proceeds : A → Outcome A
  exits : ℕ → Outcome A
  faults : Outcome A

infixl 5 ◌>>=◌
abbrev pub ◌>>=◌ {ℓ κ} : {A : Type ℓ} {B : Type κ} → Outcome A → (A → Outcome B) → Outcome B
proceeds a >>= f = f a
exits status >>= f = exits status
faults >>= f = faults
