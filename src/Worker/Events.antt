-- ===== src/Worker/Events.antt =====
-- `conn_timer_cb`, `connection_cb`, `passive_websocket_cb` and `control_cb` of src/tcpkali_engine.c as events of
-- one worker, and runs of events.
use tcpkali.Base.{ℕ, Bool, false, Bytes, List, [], ◌∷◌, Option, none, some, ◌==◌, if◌then◌else◌}
use tcpkali.Transport.Payload.{total_size}
use tcpkali.Engine.Channel.{Events}
use tcpkali.Worker.Traffic.{atomic_increment, atomic_decrement}
use tcpkali.Worker.Connections.{
  RateBase, ConnType, conn_outgoing, conn_incoming, conn_acceptor, ConnState, connected, connecting,
  Connection, Worker, find, put, Outcome, proceeds, exits, faults, ◌>>=◌,
}
use tcpkali.Worker.Close.{
  ccr_clean, ccr_timeout, ccr_remote, close_connection, connections_flush_stats,
  expire_channel_lives,
}
use tcpkali.Worker.Open.{Opened, Connect, Made, no_lifetime, start_new_connection, accept_cb}
use tcpkali.Worker.Rates.{compute_bandwidth_limit_by_message_size}
use tcpkali.Worker.Sending.{
  Sent, goes_on, closes, waits, breaks, WriteEnv, with_wish, uninterested, process_write,
}
use tcpkali.Worker.Receiving.{
  ReadResult, Fate, keeps, dies, quits, broken, process_read, passive_websocket_read,
}

abbrev pub store : Connection → Worker → Worker
store c w = record w { open_conns = put c w.open_conns }

abbrev pub unblocked : Connection → Connection
unblocked c =
    with_wish (record c { timer_started = false })
      (record c.conn_wish { read_blocked = false; write_blocked = false; write_delayed = false })

-- The timer has fired, and is not started again by the unblocking.
abbrev pub conn_timer_in : ConnState → ConnType → Worker → Connection → Outcome Worker
conn_timer_in connecting t w c = close_connection w (record c { timer_started = false }) ccr_timeout
conn_timer_in connected conn_outgoing w c = proceeds (store (unblocked c) w)
conn_timer_in connected conn_incoming w c = proceeds (store (unblocked c) w)
conn_timer_in connected conn_acceptor w c = faults

unfoldable pub conn_timer_cb : Worker → Connection → Outcome Worker
conn_timer_cb w c = conn_timer_in c.conn_state c.conn_type w c

-- The connection is established; without data it does not wait for writes any more.
abbrev pub established_connection : Connection → Connection
established_connection c =
    let ready = record c { conn_state = connected; timer_started = false } in
    if total_size c.data_spec == 0 then uninterested ready else ready

abbrev pub count_established : Worker → Worker
count_established w = record w {
  outgoing_connecting = atomic_decrement w.outgoing_connecting;
  outgoing_established = atomic_increment w.outgoing_established;
}

-- What the reads and writes of a callback are given.
pub record Io : Type 0 where
  pub read_allowed : ℕ
  pub read_result : ReadResult
  pub write_env : WriteEnv

abbrev pub after_sent : Worker → Sent → Outcome (Worker × Bytes)
after_sent w (goes_on c s) = proceeds (store c w, s)
after_sent w (waits c s) = proceeds (store c w, s)
after_sent w (closes c s) = close_connection w c ccr_remote >>= λ closed. proceeds (closed, s)
after_sent w breaks = faults

abbrev pub with_no_bytes : Outcome Worker → Outcome (Worker × Bytes)
with_no_bytes o = o >>= λ w. proceeds (w, [])

abbrev pub then_write : Worker → Bool → WriteEnv → Fate → Outcome (Worker × Bytes)
then_write w write env (keeps c) =
    if write then after_sent w (process_write w.params env c) else proceeds (store c w, [])
then_write w write env (dies c reason) = with_no_bytes (close_connection w c reason)
then_write w write env (quits status) = exits status
then_write w write env broken = faults

-- The part behind the establishment.
unfoldable pub serve : Worker → Connection → Events → Io → Outcome (Worker × Bytes)
serve w c revents io =
    then_write w revents.write io.write_env
      (if revents.read then process_read w.params io.read_allowed io.read_result c else keeps c)

abbrev pub not_writing : Connection → Events → Events
not_writing c revents = record {
  read = revents.read;
  write = if total_size c.data_spec == 0 then false else revents.write;
}

-- By the state at the start.
abbrev pub connection_in : ConnState → Worker → Connection → Events → Io → Outcome (Worker × Bytes)
connection_in connected w c revents io = serve w c revents io
connection_in connecting w c revents io =
    if no_lifetime w.params.channel_lifetime
    then with_no_bytes (close_connection w c ccr_clean)
    else serve (count_established w) (established_connection c) (not_writing c revents) io

-- The worker afterwards, and the bytes that went out.
unfoldable pub connection_cb : Worker → Connection → Events → Io → Outcome (Worker × Bytes)
unfolding serve
connection_cb w c revents io = connection_in c.conn_state w c revents io

abbrev pub after_passive : Worker → Fate → Outcome Worker
after_passive w (keeps c) = proceeds (store c w)
after_passive w (dies c reason) = close_connection w c reason
after_passive w (quits status) = exits status
after_passive w broken = faults

unfoldable pub passive_websocket_cb :
    (Bytes → Bytes) → Worker → Connection → ReadResult → Bytes → Bool → Outcome Worker
passive_websocket_cb accept_of w c r s written =
    after_passive w (passive_websocket_read accept_of r s written c)

-- The command r of `control_cb`; pacefiers and histograms are left out.
abbrev pub recomputed : RateBase → Connection → Connection
recomputed rate c = record c {
  send_limit = compute_bandwidth_limit_by_message_size rate c.avg_message_size;
}

abbrev pub recompute_all : RateBase → List Connection → List Connection
recompute_all rate [] = []
recompute_all rate (c ∷ cs) = recomputed rate c ∷ recompute_all rate cs

unfoldable pub recompute_rate : RateBase → Worker → Worker
recompute_rate rate w = record w {
  params = record w.params { channel_send_rate = rate };
  open_conns = recompute_all rate w.open_conns;
}

-- What the event loop and the control pipe call. The number is that of the connection's socket.
pub data Event : Type 0 where
  starts : Opened → Bool → Connect → Made → ℕ → Event
  accepts : Opened → Bool → Made → ℕ → Event
  connection_timer : ℕ → Event
  stats_timer : Event
  recomputes : RateBase → Event
  lifetime_timer : ℕ → Event
  ready : ℕ → Events → Io → Event
  passive_ready : ℕ → ReadResult → Bytes → Bool → Event

-- A callback runs on an open connection only.
abbrev pub on_connection :
    Worker → Option Connection → (Connection → Outcome Worker) → Outcome Worker
on_connection w none f = proceeds w
on_connection w (some c) f = f c

abbrev pub first {ℓ κ} : {A : Type ℓ} {B : Type κ} → Outcome (A × B) → Outcome A
first (proceeds (a, b)) = proceeds a
first (exits status) = exits status
first faults = faults

unfoldable pub step : (Bytes → Bytes) → Worker → Event → Outcome Worker
step accept_of w (starts socket bound connect made now) =
    start_new_connection w socket bound connect made now
step accept_of w (accepts socket named made now) = accept_cb w socket named made now
step accept_of w (connection_timer fd) = on_connection w (find fd w.open_conns) (conn_timer_cb w)
step accept_of w stats_timer = proceeds (connections_flush_stats w)
step accept_of w (recomputes rate) = proceeds (recompute_rate rate w)
step accept_of w (lifetime_timer now) = expire_channel_lives now w
step accept_of w (ready fd revents io) =
    on_connection w (find fd w.open_conns) λ c. first (connection_cb w c revents io)
step accept_of w (passive_ready fd r s written) =
    on_connection w (find fd w.open_conns) λ c. passive_websocket_cb accept_of w c r s written

unfoldable pub run : (Bytes → Bytes) → Worker → List Event → Outcome Worker
run accept_of w [] = proceeds w
run accept_of w (e ∷ es) = step accept_of w e >>= λ next. run accept_of next es
