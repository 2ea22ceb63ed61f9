-- ===== src/Worker/Tests.antt =====
-- Runs of a worker on small inputs.
use tcpkali.Base.{
  ◌%◌, ◌^◌, ◌≡◌, refl, inl, inr, true, false, Bytes, List, [], ◌∷◌, none, some, arith,
}
use tcpkali.Transport.Payload.{DataSpec}
use tcpkali.Worker.Traffic.{Number, number, no_traffic}
use tcpkali.Worker.Connections.{
  unlimited, conn_outgoing, connected, sending_http_upgrade, BandwidthLimit, Connection, Params,
  Worker, proceeds,
}
use tcpkali.Worker.Outcomes.{Holds, EndHolds}
use tcpkali.Worker.Close.{worker_exit, expire_channel_lives}
use tcpkali.Worker.Open.{Made, opened, in_progress, refused}
use tcpkali.Worker.Closed.{rest}
use tcpkali.Worker.Sending.{wrote, again, Sending, WriteEnv, write_loop}
use tcpkali.Worker.Sending.Ends.{HasEnded, write_loop-HasEnded, write_loop_repeats}
use tcpkali.Worker.Receiving.{received, counted}
use tcpkali.Worker.Events.{
  Io, Event, starts, connection_timer, stats_timer, lifetime_timer, ready, run,
}
use tcpkali.Worker.Counters.{IsCounted}
use tcpkali.Worker.Counters.Runs.{run-IsCounted}
use tcpkali.Worker.Conserved.{settled_in}
use tcpkali.Worker.Exit.{worker_exit_total}
use tcpkali.Worker.Lifetimes.{later, next_timer, expire_channel_lives-later}
use tcpkali.Worker.Lifetimes.Timed.{IsTimed}
use tcpkali.Worker.Lifetimes.Runs.{last_time, run-IsTimed}

abbrev params : Params
params = record {
  n_remote_addresses = 1;
  n_source_addresses = 0;
  channel_lifetime = some 50;
  connect_timeout = 10;
  delay_send = 0;
  epoch = 100;
  channel_send_rate = unlimited;
  channel_recv_rate = unlimited;
  listen_mode_snd = false;
  websocket_enable = false;
  message_marker = false;
  write_combine = true;
  dump_one = false;
}

abbrev idle : Worker
idle = record {
  params = params;
  thread_no = 0;
  address_offset = 0;
  remote_stats = λ i. record { connection_attempts = 0; connection_failures = 0 };
  lifetime_timer = none;
  dump_connect_fd = 0;
  open_conns = [];
  worker_connections_initiated = 0;
  worker_connections_accepted = 0;
  worker_connection_failures = 0;
  worker_connection_timeouts = 0;
  worker_traffic_stats = no_traffic;
  outgoing_connecting = 0;
  outgoing_established = 0;
  incoming_established = 0;
  connections_counter = 0;
}

-- A header of one byte, and messages of two.
abbrev spec : DataSpec
spec = record {
  contents = 1 ∷ 2 ∷ 3 ∷ [];
  ws_hdr_size = 0;
  once_size = 1;
  allocated_size = 4;
  single_message_size = 2;
  marker_token_ptr = none;
  ptr_shared = true;
  is_replicated = true;
}

abbrev limit : BandwidthLimit
limit = record { is_set = false; minimal_move_size = 1460 }

abbrev made : Made
made = record { data_spec = spec; avg_message_size = 2; measures_latency = false }

abbrev env : WriteEnv
env = record { now = 105; wall_clock = 0; allowed = 0; anew = none; results = wrote 5 ∷ again ∷ [] }

abbrev io : Io
io = record { read_allowed = 0; read_result = received 4 (counted 0); write_env = env }

abbrev history : List Event
history =
    starts (opened 7) true in_progress made 101
    ∷ starts (opened 8) true in_progress made 103
    ∷ ready 7 (record { read = true; write = true }) io
    ∷ stats_timer
    ∷ connection_timer 8
    ∷ starts (opened 9) true refused made 104
    ∷ lifetime_timer 151
    ∷ []

abbrev same_bytes : Bytes → Bytes
same_bytes s = s

run-IsCounted_example : Holds IsCounted (run same_bytes idle history)
run-IsCounted_example =
    run-IsCounted same_bytes idle history (record {
      are_connecting = refl;
      are_outgoing = refl;
      are_incoming = refl;
      none_stray = refl;
    })

run-IsTimed_example :
    Holds (λ v. IsTimed (last_time 100 history) (rest v)) (run same_bytes idle history)
run-IsTimed_example =
    run-IsTimed same_bytes 100 idle history (ground arith)
      (record { begun = omega arith; ordered = tt; bounded = tt; armed = λ h. inl refl })

-- A connection of the worker with data to send.
abbrev conn : Connection
conn = record {
  sockfd = 7;
  timer_started = false;
  is_passive = false;
  write_offset = 0;
  data_spec = spec;
  traffic_ongoing = no_traffic;
  traffic_reported = no_traffic;
  avg_message_size = 2;
  bytes_leftovers = 0;
  channel_eol_point = 51;
  send_limit = limit;
  recv_limit = limit;
  conn_wish = record {
    read_interest = true;
    read_blocked = false;
    write_interest = true;
    write_blocked = false;
    write_delayed = false;
  };
  conn_type = conn_outgoing;
  conn_state = connected;
  ws_state = sending_http_upgrade;
  remote_index = 0;
  connection_initiated = 101;
  sent_timestamps = none;
  message_bytes_credit = 0;
}

abbrev pub busy : Worker
busy = record idle { open_conns = conn ∷ []; outgoing_established = 1 }

pub busy-IsCounted : IsCounted busy
busy-IsCounted = record {
  are_connecting = refl;
  are_outgoing = refl;
  are_incoming = refl;
  none_stray = refl;
}

worker_exit_total_example :
    (v : Worker) × (worker_exit busy ≡ proceeds v)
    × (v.open_conns ≡ [])
    × (v.outgoing_connecting ≡ 0)
    × (v.outgoing_established ≡ 0)
    × (v.incoming_established ≡ 0)
    × ((f : Number) → number f v.worker_traffic_stats % 2 ^ 64 ≡ settled_in f busy)
worker_exit_total_example = worker_exit_total busy busy-IsCounted

expire_channel_lives-later_example :
    (v : Worker) × (expire_channel_lives 151 busy ≡ proceeds v)
    × (v.open_conns ≡ later 51 (conn ∷ []))
    × (v.lifetime_timer ≡ next_timer 151 51 none (later 51 (conn ∷ [])))
    × (v.params ≡ params)
expire_channel_lives-later_example = expire_channel_lives-later 151 busy refl (tt, tt)

-- A header of a byte, and a body of two.
abbrev split : Sending
split = record {
  connection = conn;
  position = 0;
  available_header = 1;
  available_body = 2;
  is_lockstep = false;
  sent = [];
}

write_loop-HasEnded_example : HasEnded (write_loop params 105 (wrote 2 ∷ wrote 1 ∷ []) split)
write_loop-HasEnded_example =
    write_loop-HasEnded params 105 (wrote 2 ∷ wrote 1 ∷ []) split (omega arith)
      (omega arith, (omega arith, tt)) (inr (omega arith)) (omega arith) (omega arith)

write_loop_repeats_example :
    EndHolds (λ t. t.sent ≡ 1 ∷ 1 ∷ 2 ∷ []) (write_loop params 105 (wrote 1 ∷ wrote 2 ∷ []) split)
write_loop_repeats_example = write_loop_repeats params 105 1 2 split (omega arith) (omega arith)
