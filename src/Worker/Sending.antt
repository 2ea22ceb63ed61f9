-- ===== src/Worker/Sending.antt =====
-- `latency_record_outgoing_ts` and the part of `connection_cb` from `process_WRITE` on, of
-- src/tcpkali_engine.c, for connections without --ssl. What `write` returns, the allowance of the
-- pacefier, the clock and the messages made anew are arguments. The state keeps the bytes that
-- `write` took, in order. The pacefiers are left out, and the exit where the
-- ring of timestamps passes 10 MiB.
pub mod Placed
pub mod Stream
pub mod Counted
pub mod Chunks
pub mod Whole
pub mod Ends
pub use tcpkali.Worker.Chunk.{
  Chunk, is_upgrading, only_upgrade, stamped, header_left, with_data, behind_once, first_body,
  chunk_inside,
}
unfoldable pub use tcpkali.Worker.Chunk.{largest_contiguous_chunk}
use tcpkali.Base.{
  ℕ, ◌+◌, ◌-◌, ◌/◌, ◌%◌, ◌^◌, Bool, true, false, not, ◌&&◌, ◌||◌, Bytes, List, [], ◌∷◌, ◌++◌,
  Option, none, some, length, take, drop, min, replicate, ltb, leb, ◌==◌, if◌then◌else◌,
}
use tcpkali.Transport.Payload.{DataSpec, total_size}
use tcpkali.Engine.Marker.{token, override_timestamp, update_timestamps}
use tcpkali.Engine.Channel.{
  ConnWish, tk_write, LbReturnValue, unlimited, proceed, lockstep, go_sleep,
  limit_channel_bandwidth,
}
use tcpkali.Worker.Traffic.{wide_add, wide_subtract}
use tcpkali.Worker.Connections.{
  WsState, sending_http_upgrade, ws_established, Connection, Params, Outcome, proceeds, exits,
  faults, ◌>>=◌,
}

abbrev pub with_messages : Connection → ℕ → ℕ → Connection
with_messages c messages leftovers = record c {
  traffic_ongoing = record c.traffic_ongoing {
    msgs_sent = wide_add c.traffic_ongoing.msgs_sent messages;
  };
  bytes_leftovers = leftovers;
}

abbrev pub with_timestamps : Connection → List ℕ → ℕ → Connection
with_timestamps c ts credit = record c { sent_timestamps = some ts; message_bytes_credit = credit }

abbrev pub record_timestamps : Option (List ℕ) → ℕ → ℕ → Connection → Outcome Connection
record_timestamps none wrote now c = proceeds c
record_timestamps (some ts) wrote now c =
    let msgsize = c.data_spec.single_message_size in
    let pretend_sent = (wrote + c.message_bytes_credit) % 2 ^ 64 in
    if msgsize == 0
    then faults
    else proceeds (
        with_timestamps c (ts ++ replicate (pretend_sent / msgsize) now)
          (pretend_sent % msgsize % 2 ^ 32))

unfoldable pub latency_record_outgoing_ts : Params → ℕ → ℕ → Connection → Outcome Connection
latency_record_outgoing_ts p now wrote c =
    let sent = c.bytes_leftovers + wrote in
    if not p.message_marker
    then record_timestamps c.sent_timestamps wrote now c
    else if c.avg_message_size == 0
    then proceeds c
    else proceeds (with_messages c (sent / c.avg_message_size) (sent % c.avg_message_size))

-- What a call of `write` meets: room for a number of bytes, of which it takes as many as it is
-- offered, EINTR, EAGAIN, or another error.
pub data WriteResult : Type 0 where
  wrote : ℕ → WriteResult
  interrupted again failed : WriteResult

-- The variables of the write loop, and the bytes that `write` took so far.
pub record Sending : Type 0 where
  pub connection : Connection
  pub position : ℕ
  pub available_header : ℕ
  pub available_body : ℕ
  pub is_lockstep : Bool
  pub sent : Bytes

-- `unfinished` is a loop that has not ended after all the results given.
pub data WriteEnd : Type 0 where
  ended reset unfinished : Sending → WriteEnd
  broken : WriteEnd

abbrev pub available_write : Params → Connection → ℕ → ℕ → ℕ
available_write p c header body =
    if p.write_combine
    then header + body
    else if ltb body c.send_limit.minimal_move_size
    then header + body
    else header + c.send_limit.minimal_move_size

abbrev pub offered : Params → Sending → ℕ
offered p s = available_write p s.connection s.available_header s.available_body

abbrev pub count_write : ℕ → Connection → Connection
count_write n c = record c {
  write_offset = c.write_offset + n;
  traffic_ongoing = record c.traffic_ongoing {
    num_writes = wide_add c.traffic_ongoing.num_writes 1;
    bytes_sent = wide_add c.traffic_ongoing.bytes_sent n;
  };
}

-- The bytes at `position`, which the call took.
abbrev pub taken : ℕ → Sending → Bytes
taken n s = take n (drop s.position s.connection.data_spec.contents)

abbrev pub moved : ℕ → Sending → Connection → Sending
moved n s c = record {
  connection = c;
  position = s.position + n;
  available_header = 0;
  available_body = s.available_body - (n - s.available_header);
  is_lockstep = s.is_lockstep;
  sent = s.sent ++ taken n s;
}

abbrev pub not_moved : ℕ → Sending → Connection → Sending
not_moved n s c = record s { connection = c; sent = s.sent ++ taken n s }

-- The branch of a successful call: `position` and the sizes change only behind the header.
unfoldable pub after_write : Params → ℕ → ℕ → Sending → Outcome Sending
unfolding latency_record_outgoing_ts
after_write p now n s =
    let c = count_write n s.connection in
    if ltb s.available_header n
    then (latency_record_outgoing_ts p now (n - s.available_header) c >>= λ d.
        proceeds (moved n s d))
    else proceeds (not_moved n s c)

abbrev pub stop_timer : Sending → Sending
stop_timer s = record s { connection = record s.connection { timer_started = false } }

abbrev pub undo_lockstep : Sending → Sending
undo_lockstep s = if s.is_lockstep then record (stop_timer s) { is_lockstep = false } else s

abbrev pub while_body : (Sending → WriteEnd) → Outcome Sending → WriteEnd
while_body more (proceeds s) = let rest = more s in if s.available_body == 0 then ended s else rest
while_body more (exits status) = broken
while_body more faults = broken

unfoldable pub write_loop : Params → ℕ → List WriteResult → Sending → WriteEnd
unfolding after_write
write_loop p now [] s = unfinished s
write_loop p now (wrote n ∷ rs) s =
    while_body (write_loop p now rs) (after_write p now (min n (offered p s)) s)
write_loop p now (interrupted ∷ rs) s = while_body (write_loop p now rs) (proceeds s)
write_loop p now (again ∷ rs) s = ended (undo_lockstep s)
write_loop p now (failed ∷ rs) s = reset s

-- What the callback leaves: a connection to go on with, or one to close for CCR_REMOTE.
pub data Sent : Type 0 where
  goes_on closes waits : Connection → Bytes → Sent
  breaks : Sent

abbrev pub with_wish : Connection → ConnWish → Connection
with_wish c wish = record c { conn_wish = wish }

abbrev pub uninterested : Connection → Connection
uninterested c = with_wish c (record c.conn_wish { write_interest = false })

abbrev pub blocked_write : Connection → Connection
blocked_write c = with_wish c (record c.conn_wish { write_blocked = true })

abbrev pub delayed_write : Connection → Connection
delayed_write c =
    with_wish (record c { timer_started = true }) (record c.conn_wish { write_delayed = true })

abbrev pub timed : Connection → Connection
timed c = record c { timer_started = true }

-- Behind the loop.
abbrev pub settle_lockstep : Sending → Connection
settle_lockstep s =
    if not s.is_lockstep
    then s.connection
    else if s.available_body == 0
    then blocked_write s.connection
    else (stop_timer s).connection

abbrev pub after_loop : WriteEnd → Sent
after_loop (ended s) = goes_on (settle_lockstep s) s.sent
after_loop (reset s) = closes s.connection s.sent
after_loop (unfinished s) = waits s.connection s.sent
after_loop broken = breaks

-- What the callback is given.
pub record WriteEnv : Type 0 where
  pub now : ℕ
  pub wall_clock : ℕ  -- microseconds
  pub allowed : ℕ
  pub anew : Option DataSpec
  pub results : List WriteResult

abbrev pub is_delayed : Params → ℕ → Connection → Bool
is_delayed p now c = ltb 0 p.delay_send && ltb (now - c.connection_initiated) p.delay_send

abbrev pub start_loop : Connection → Chunk → ℕ → Bool → Sending
start_loop c k body locked = record {
  connection = c;
  position = k.position;
  available_header = k.available_header;
  available_body = body;
  is_lockstep = locked;
  sent = [];
}

unfoldable pub send_limited : Params → WriteEnv → Connection → Chunk → LbReturnValue → ℕ → Sent
unfolding write_loop
send_limited p env c k go_sleep body =
    if k.available_header == 0
    then goes_on (blocked_write (timed c)) []
    else if is_delayed p env.now (timed c)
    then goes_on (delayed_write c) []
    else after_loop (write_loop p env.now env.results (start_loop (timed c) k body false))
send_limited p env c k lockstep body =
    if is_delayed p env.now (timed c)
    then goes_on (delayed_write c) []
    else after_loop (write_loop p env.now env.results (start_loop (timed c) k body true))
send_limited p env c k unlimited body =
    if is_delayed p env.now c
    then goes_on (delayed_write c) []
    else after_loop (write_loop p env.now env.results (start_loop c k body false))
send_limited p env c k proceed body =
    if is_delayed p env.now c
    then goes_on (delayed_write c) []
    else after_loop (write_loop p env.now env.results (start_loop c k body false))

abbrev pub send_body : Params → WriteEnv → Connection → Chunk → Option (LbReturnValue × ℕ) → Sent
send_body p env c k none = breaks
send_body p env c k (some (limited, body)) = send_limited p env c k limited body

-- The assertion where nothing is left to send is that all was to be sent once.
abbrev pub nothing_left : Params → Connection → Sent
nothing_left p c =
    if total_size c.data_spec == c.data_spec.once_size || p.websocket_enable
    then goes_on (uninterested c) []
    else breaks

abbrev pub send_chunk : Params → WriteEnv → Outcome (Chunk × Connection) → Sent
send_chunk p env (proceeds (k, c)) =
    let limited =
      limit_channel_bandwidth c.send_limit.is_set c.send_limit.minimal_move_size env.allowed
        k.available_body tk_write in
    if k.available_header + k.available_body == 0
    then nothing_left p c
    else send_body p env c k limited
send_chunk p env (exits status) = breaks
send_chunk p env faults = breaks

unfoldable pub process_write : Params → WriteEnv → Connection → Sent
unfolding largest_contiguous_chunk
process_write p env c = send_chunk p env (largest_contiguous_chunk p env.anew env.wall_clock c)
