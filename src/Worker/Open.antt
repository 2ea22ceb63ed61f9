-- ===== src/Worker/Open.antt =====
-- `start_new_connection`, `accept_cb`, `common_connection_init`, `connection_timer_refresh`,
-- `maybe_enable_dump` and `limit_channel_lifetime` of src/tcpkali_engine.c. What the system calls
-- return and the data made for the connection are arguments; messages for the log,
-- socket options and histograms are left out.
use tcpkali.Base.{
  ℕ, ◌+◌, ◌-◌, ◌%◌, ◌^◌, Bool, true, false, not, ◌&&◌, ◌||◌, List, [], ◌∷◌, ◌++◌, Option, none,
  some, ltb, ◌==◌, if◌then◌else◌,
}
use tcpkali.Transport.Payload.{DataSpec, total_size}
use tcpkali.Engine.Addresses.{RemoteStats, pick_remote_address}
use tcpkali.Worker.Traffic.{atomic_increment, no_traffic}
use tcpkali.Worker.Connections.{
  ConnType, conn_outgoing, conn_incoming, conn_acceptor, ConnState, connected, connecting,
  sending_http_upgrade, BandwidthLimit, Connection, Worker, Outcome, proceeds, exits, faults,
}
use tcpkali.Worker.Rates.{compute_bandwidth_limit, compute_bandwidth_limit_by_message_size}
use tcpkali.Worker.Close.{
  count, at_remote, count_failure, count_remote_failure, lifetime_limited,
  setup_channel_lifetime_timer,
}

-- What `common_connection_init` gets from the parts of the engine that make the data.
pub record Made : Type 0 where
  pub data_spec : DataSpec
  pub avg_message_size : ℕ
  pub measures_latency : Bool  -- `params.latency_marker_expr` is set

abbrev pub is_outgoing : ConnType → Bool
is_outgoing conn_outgoing = true
is_outgoing conn_incoming = false
is_outgoing conn_acceptor = false

abbrev pub is_connecting : ConnState → Bool
is_connecting connecting = true
is_connecting connected = false

-- What `calloc` gives where no data is made.
abbrev pub no_data : DataSpec
no_data = record {
  contents = [];
  ws_hdr_size = 0;
  once_size = 0;
  allocated_size = 0;
  single_message_size = 0;
  marker_token_ptr = none;
  ptr_shared = false;
  is_replicated = false;
}

abbrev pub no_limit : BandwidthLimit
no_limit = record { is_set = true; minimal_move_size = 0 }

abbrev pub maybe_enable_dump : ConnType → ℕ → Worker → Worker
maybe_enable_dump type fd w = record w {
  dump_connect_fd =
      if w.thread_no == 0
        && (w.params.dump_one
            && (w.dump_connect_fd == 0 && (is_outgoing type || w.params.n_remote_addresses == 0)))
      then fd
      else w.dump_connect_fd;
}

-- Whether the timer runs afterwards.
abbrev pub connection_timer_refresh : ℕ → ConnState → ℕ → Bool
connection_timer_refresh connect_timeout connected delay = ltb 0 delay
connection_timer_refresh connect_timeout connecting delay = ltb 0 connect_timeout

abbrev pub is_empty {ℓ} : {A : Type ℓ} → List A → Bool
is_empty [] = true
is_empty (x ∷ xs) = false

-- Zero where the lifetime is not limited, as `calloc` leaves it.
abbrev pub eol_point : Option ℕ → ℕ → ℕ → ℕ
eol_point none now epoch = 0
eol_point (some lifetime) now epoch = if ltb 0 lifetime then now - epoch + lifetime else 0

abbrev pub first_timeout : Option ℕ → ℕ
first_timeout none = 0
first_timeout (some lifetime) = lifetime

abbrev pub arm_lifetime_timer : ℕ → Worker → Worker
arm_lifetime_timer now w =
    let armed = setup_channel_lifetime_timer now (first_timeout w.params.channel_lifetime) w in
    if lifetime_limited w.params.channel_lifetime && is_empty w.open_conns then armed else w

abbrev pub insert_tail : Connection → Worker → Worker
insert_tail c w = record w { open_conns = w.open_conns ++ c ∷ [] }

abbrev pub active_socket : Worker → ConnType → Bool
active_socket w type = is_outgoing type || w.params.listen_mode_snd

abbrev pub want_catch_connect : Worker → ConnState → Bool
want_catch_connect w state = is_connecting state && ltb 0 w.params.connect_timeout

-- Timestamps are kept where latency is measured; the first byte of a message completes the credit.
abbrev pub measured : Worker → Made → DataSpec → Bool
measured w made data_spec =
    made.measures_latency && (not (data_spec.single_message_size == 0) || w.params.message_marker)

abbrev pub initial_connection : Worker → Made → ℕ → ConnType → ConnState → ℕ → ℕ → Connection
initial_connection w made index type state fd now =
    let data_spec = if active_socket w type then made.data_spec else no_data in
    record {
      sockfd = fd;
      timer_started =
          want_catch_connect w state && connection_timer_refresh w.params.connect_timeout state 0;
      is_passive = w.params.websocket_enable && not (is_outgoing type);
      write_offset = 0;
      data_spec = data_spec;
      traffic_ongoing = no_traffic;
      traffic_reported = no_traffic;
      avg_message_size = if active_socket w type then made.avg_message_size else 0;
      bytes_leftovers = 0;
      channel_eol_point = eol_point w.params.channel_lifetime now w.params.epoch;
      send_limit =
          if active_socket w type
          then compute_bandwidth_limit_by_message_size w.params.channel_send_rate
              made.avg_message_size
          else no_limit;
      recv_limit = compute_bandwidth_limit w.params.channel_recv_rate;
      conn_wish = record {
        read_interest = true;
        read_blocked = false;
        write_interest = not (total_size data_spec == 0) || want_catch_connect w state;
        write_blocked = false;
        write_delayed = false;
      };
      conn_type = type;
      conn_state = state;
      ws_state = sending_http_upgrade;
      remote_index = index % 2 ^ 16;
      connection_initiated = now;
      sent_timestamps = if measured w made data_spec then some [] else none;
      message_bytes_credit =
          if measured w made data_spec then data_spec.single_message_size - 1 else 0;
    }

-- The assertion is that only an outgoing connection waits for `connect`.
unfoldable pub common_connection_init :
    Worker → Made → ℕ → ConnType → ConnState → ℕ → ℕ → Outcome Worker
common_connection_init w made index type state fd now =
    let c = initial_connection w made index type state fd now in
    if want_catch_connect w state && not (is_outgoing type)
    then faults
    else proceeds (insert_tail c (arm_lifetime_timer now (maybe_enable_dump type fd w)))

-- What `socket` or `accept` gives.
pub data Opened : Type 0 where
  opened : ℕ → Opened
  too_many_files other_error : Opened

pub data Connect : Type 0 where
  connected_at_once in_progress address_not_available refused : Connect

abbrev pub one_more_attempt : RemoteStats → RemoteStats
one_more_attempt rs = record {
  connection_attempts = atomic_increment rs.connection_attempts;
  connection_failures = rs.connection_failures;
}

abbrev pub count_attempt : ℕ → ℕ → Worker → Worker
count_attempt index offset w = record w {
  address_offset = offset;
  connections_counter = atomic_increment w.connections_counter;
  remote_stats = at_remote index one_more_attempt w.remote_stats;
  worker_connections_initiated = count w.worker_connections_initiated;
}

abbrev pub no_lifetime : Option ℕ → Bool
no_lifetime none = false
no_lifetime (some lifetime) = lifetime == 0

abbrev pub one_connecting : Worker → Worker
one_connecting w = record w { outgoing_connecting = atomic_increment w.outgoing_connecting }

abbrev pub one_outgoing : Worker → Worker
one_outgoing w = record w { outgoing_established = atomic_increment w.outgoing_established }

abbrev pub one_incoming : Worker → Worker
one_incoming w = record w { incoming_established = atomic_increment w.incoming_established }

-- The switch over the result of `connect`, with its fall through.
unfoldable pub after_connect : Connect → Made → ℕ → ℕ → ℕ → Worker → Outcome Worker
unfolding common_connection_init
after_connect connected_at_once made index fd now w =
    if no_lifetime w.params.channel_lifetime
    then proceeds w
    else common_connection_init (one_outgoing w) made index conn_outgoing connected fd now
after_connect in_progress made index fd now w =
    common_connection_init (one_connecting w) made index conn_outgoing connecting fd now
after_connect address_not_available made index fd now w =
    let local = if w.params.n_source_addresses == 0 then w else count_failure w in
    proceeds (count_failure (count_remote_failure index local))
after_connect refused made index fd now w = proceeds (count_failure (count_remote_failure index w))

abbrev pub attempt : Opened → Bool → Connect → Made → ℕ → ℕ → Worker → Outcome Worker
attempt (opened fd) bound connect made index now w =
    if not (w.params.n_source_addresses == 0) && not bound
    then proceeds (count_failure (count_remote_failure index w))
    else after_connect connect made index fd now w
attempt too_many_files bound connect made index now w = exits 1
attempt other_error bound connect made index now w = proceeds w

-- `bound` is whether `bind` succeeds, where the connection has a source address.
unfoldable pub start_new_connection : Worker → Opened → Bool → Connect → Made → ℕ → Outcome Worker
unfolding after_connect
start_new_connection w socket bound connect made now =
    let (index, offset) =
      pick_remote_address w.remote_stats w.params.n_remote_addresses w.address_offset in
    attempt socket bound connect made index now (count_attempt index offset w)

abbrev pub count_accepted : Worker → Worker
count_accepted w = record w {
  connections_counter = atomic_increment w.connections_counter;
  worker_connections_accepted = count w.worker_connections_accepted;
}

-- `named` is whether `getpeername` succeeds.
unfoldable pub accept_cb : Worker → Opened → Bool → Made → ℕ → Outcome Worker
unfolding common_connection_init
accept_cb w (opened fd) named made now =
    if no_lifetime w.params.channel_lifetime
    then proceeds (count_accepted w)
    else if not named
    then proceeds (count_accepted w)
    else common_connection_init (one_incoming (count_accepted w)) made 0 conn_incoming connected fd
        now
accept_cb w too_many_files named made now =
    if w.params.n_remote_addresses == 0
    then proceeds (record w { connections_counter = atomic_increment w.connections_counter })
    else exits 1
accept_cb w other_error named made now = proceeds w
