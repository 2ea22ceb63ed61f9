-- ===== src/Worker/Close.antt =====
-- `close_connection`, `close_all_connections`, `connection_flush_stats`, `connections_flush_stats`,
-- `stats_timer_cb`, `expire_channel_lives` and `setup_channel_lifetime_timer` of
-- src/tcpkali_engine.c. Latency histograms are left out, and freed memory is forgotten.
use tcpkali.Base.{
  ℕ, ◌+◌, ◌-◌, ◌%◌, ◌^◌, Bool, false, List, [], ◌∷◌, Option, none, some, ltb, leb, ◌==◌,
  if◌then◌else◌,
}
use tcpkali.Engine.Addresses.{RemoteStats}
use tcpkali.Worker.Traffic.{
  atomic_increment, atomic_decrement, TrafficStats, add_traffic_numbers, subtract_traffic_stats,
}
use tcpkali.Worker.Connections.{
  ConnType, conn_outgoing, conn_incoming, conn_acceptor, ConnState, connected, connecting,
  Connection, Worker, remove, Outcome, proceeds, faults, ◌>>=◌,
}

-- `enum connection_close_reason`.
pub data CloseReason : Type 0 where
  ccr_clean ccr_lifetime ccr_timeout ccr_remote ccr_data : CloseReason

-- One of the workers' `unsigned long` counters.
abbrev pub count : ℕ → ℕ
count n = (n + 1) % 2 ^ 64

abbrev pub at_remote : ℕ → (RemoteStats → RemoteStats) → (ℕ → RemoteStats) → ℕ → RemoteStats
at_remote i f stats j = if j == i then f (stats j) else stats j

abbrev pub one_more_failure : RemoteStats → RemoteStats
one_more_failure rs = record {
  connection_attempts = rs.connection_attempts;
  connection_failures = atomic_increment rs.connection_failures;
}

abbrev pub count_failure : Worker → Worker
count_failure w = record w { worker_connection_failures = count w.worker_connection_failures }

abbrev pub count_remote_failure : ℕ → Worker → Worker
count_remote_failure i w = record w { remote_stats = at_remote i one_more_failure w.remote_stats }

-- The switch over the reason. An index of 2 ^ 15 or more is a negative `remote_index`.
unfoldable pub note_reason : CloseReason → ConnType → ℕ → Worker → Outcome Worker
note_reason ccr_clean type index w = proceeds w
note_reason ccr_lifetime type index w = proceeds w
note_reason ccr_remote conn_outgoing index w =
    if ltb index (2 ^ 15) then proceeds (count_failure (count_remote_failure index w)) else faults
note_reason ccr_remote conn_incoming index w = proceeds (count_failure w)
note_reason ccr_remote conn_acceptor index w = proceeds (count_failure w)
note_reason ccr_data conn_outgoing index w =
    if ltb index (2 ^ 15) then proceeds (count_failure (count_remote_failure index w)) else faults
note_reason ccr_data conn_incoming index w = proceeds (count_failure w)
note_reason ccr_data conn_acceptor index w = proceeds (count_failure w)
note_reason ccr_timeout conn_outgoing index w =
    proceeds
      (record (count_failure w) { worker_connection_timeouts = count w.worker_connection_timeouts })
note_reason ccr_timeout conn_incoming index w = faults
note_reason ccr_timeout conn_acceptor index w = faults

abbrev pub delta : Connection → TrafficStats
delta c = subtract_traffic_stats c.traffic_ongoing c.traffic_reported

abbrev pub reported : Connection → Connection
reported c = record c { traffic_reported = c.traffic_ongoing }

-- What `connection_flush_stats` does to the worker's numbers; the connection becomes `reported`.
abbrev pub connection_flush_stats : Connection → TrafficStats → TrafficStats
connection_flush_stats c tally = add_traffic_numbers (delta c) tally

-- The count of open connections.
unfoldable pub count_out : ConnType → ConnState → Worker → Worker
count_out conn_outgoing connecting w = record w {
  outgoing_connecting = atomic_decrement w.outgoing_connecting;
}
count_out conn_outgoing connected w = record w {
  outgoing_established = atomic_decrement w.outgoing_established;
}
count_out conn_incoming state w = record w {
  incoming_established = atomic_decrement w.incoming_established;
}
count_out conn_acceptor state w = w

abbrev pub stop_dumping : ℕ → ℕ → ℕ
stop_dumping fd dumped = if dumped == fd then 0 else dumped

abbrev pub forget : Connection → Worker → Worker
forget c w = record w {
  worker_traffic_stats = connection_flush_stats c w.worker_traffic_stats;
  open_conns = remove c.sockfd w.open_conns;
  dump_connect_fd = stop_dumping c.sockfd w.dump_connect_fd;
}

unfoldable pub close_connection : Worker → Connection → CloseReason → Outcome Worker
unfolding note_reason count_out
close_connection w c reason = do
  noted ← note_reason reason c.conn_type c.remote_index w
  proceeds (count_out c.conn_type c.conn_state (forget c noted))

-- TAILQ_FOREACH_SAFE over the connections that are open at the start.
unfoldable pub close_each : CloseReason → List Connection → Worker → Outcome Worker
close_each reason [] w = proceeds w
close_each reason (c ∷ cs) w = do closed ← close_connection w c reason; close_each reason cs closed

abbrev pub close_all_connections : Worker → CloseReason → Outcome Worker
close_all_connections w reason = close_each reason w.open_conns w

unfoldable pub flush_each : List Connection → TrafficStats → TrafficStats
flush_each [] tally = tally
flush_each (c ∷ cs) tally = flush_each cs (connection_flush_stats c tally)

abbrev pub reported_all : List Connection → List Connection
reported_all [] = []
reported_all (c ∷ cs) = reported c ∷ reported_all cs

-- Also `stats_timer_cb`.
unfoldable pub connections_flush_stats : Worker → Worker
connections_flush_stats w = record w {
  worker_traffic_stats = flush_each w.open_conns w.worker_traffic_stats;
  open_conns = reported_all w.open_conns;
}

-- The timer fires once; `now` is at or past the time that it was due.
abbrev pub setup_channel_lifetime_timer : ℕ → ℕ → Worker → Worker
setup_channel_lifetime_timer now first_timeout w = record w {
  lifetime_timer = some (now + first_timeout);
}

unfoldable pub expire_each : ℕ → List Connection → Worker → Outcome Worker
expire_each now [] w = proceeds w
expire_each now (c ∷ cs) w =
    let closed = close_connection w c ccr_clean in
    let rest = closed >>= expire_each now cs in
    if leb c.channel_eol_point (now - w.params.epoch)
    then rest
    else proceeds
        (setup_channel_lifetime_timer now (c.channel_eol_point - (now - w.params.epoch)) w)

abbrev pub lifetime_limited : Option ℕ → Bool
lifetime_limited none = false
lifetime_limited (some lifetime) = ltb 0 lifetime

unfoldable pub expire_channel_lives : ℕ → Worker → Outcome Worker
expire_channel_lives now w =
    if lifetime_limited w.params.channel_lifetime
    then expire_each now w.open_conns (record w { lifetime_timer = none })
    else faults

-- What `single_engine_loop_thread` does behind the event loop.
unfoldable pub worker_exit : Worker → Outcome Worker
unfolding close_each connections_flush_stats
worker_exit w = close_all_connections (connections_flush_stats w) ccr_clean
