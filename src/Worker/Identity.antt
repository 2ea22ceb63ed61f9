-- ===== src/Worker/Identity.antt =====
-- What reads and writes leave alone in a connection.
use tcpkali.Base.{
  Bytes, ℕ, ◌+◌, ◌≡◌, Bool, true, false, ◌||◌, List, [], ◌∷◌, Option, none, some, ◌==◌, arith,
}
use tcpkali.Transport.Payload.{DataSpec, total_size}
use tcpkali.Engine.Channel.{LbReturnValue, unlimited, proceed, lockstep, go_sleep}
use tcpkali.WebSocket.Detect.{}
use tcpkali.Worker.Traffic.{TrafficStats}
use tcpkali.Worker.Connections.{
  ConnType, ConnState, Connection, Params, Outcome, proceeds, exits, faults,
}
use tcpkali.Worker.Outcomes.{Holds, if_lem, EndHolds, EndHolds-while_body}
use tcpkali.Worker.Sending
use tcpkali.Worker.Receiving

pub record Identity : Type 0 where
  pub sockfd : ℕ
  pub conn_type : ConnType
  pub conn_state : ConnState
  pub channel_eol_point : ℕ
  pub traffic_reported : TrafficStats
  pub remote_index : ℕ

abbrev pub identity : Connection → Identity
identity c = record {
  sockfd = c.sockfd;
  conn_type = c.conn_type;
  conn_state = c.conn_state;
  channel_eol_point = c.channel_eol_point;
  traffic_reported = c.traffic_reported;
  remote_index = c.remote_index;
}

abbrev pub Same : Connection → Connection → Type 0
Same c d = identity d ≡ identity c

abbrev pub SentSame : Connection → Sending.Sent → Type 0
SentSame c (Sending.goes_on d s) = Same c d
SentSame c (Sending.closes d s) = Same c d
SentSame c (Sending.waits d s) = Same c d
SentSame c Sending.breaks = Unit

abbrev pub FateSame : Connection → Receiving.Fate → Type 0
FateSame c (Receiving.keeps d) = Same c d
FateSame c (Receiving.dies d reason) = Same c d
FateSame c (Receiving.quits status) = Unit
FateSame c Receiving.broken = Unit

stamped-Same :
    (p : Params) (ts : ℕ) (k : Sending.Chunk) (c d : Connection)
    → Same d c
    → Holds (λ kc. Same d kc.1) (Sending.stamped p ts k c)
stamped-Same p ts k c d h = ground arith

chunk-Same :
    (p : Params) (anew : Option DataSpec) (ts : ℕ) (c : Connection)
    → Holds (λ kc. Same c kc.1) (Sending.largest_contiguous_chunk p anew ts c)
unfolding Sending.largest_contiguous_chunk
chunk-Same p none ts c = ground (arith, stamped-Same p ts)
chunk-Same p (some d) ts c = ground (arith, stamped-Same p ts)

outgoing_ts-Same :
    (p : Params) (now n : ℕ) (c d : Connection)
    → Same d c
    → Holds (Same d) (Sending.latency_record_outgoing_ts p now n c)
unfolding Sending.latency_record_outgoing_ts
outgoing_ts-Same p now n c d h = ground arith

abbrev SameInside : Connection → Sending.Sending → Type 0
SameInside d s = Same d s.connection

after_write-Same :
    (p : Params) (now n : ℕ) (s : Sending.Sending) (d : Connection)
    → SameInside d s
    → Holds (SameInside d) (Sending.after_write p now n s)
unfolding Sending.after_write
after_write-Same p now n s d h = ground arith

write_loop-Same :
    (p : Params) (now : ℕ) (d : Connection) (rs : List Sending.WriteResult) (s : Sending.Sending)
    → SameInside d s
    → EndHolds (SameInside d) (Sending.write_loop p now rs s)
unfolding Sending.write_loop
write_loop-Same p now d [] s h = h
write_loop-Same p now d (Sending.wrote n ∷ rs) s h =
    EndHolds-while_body (SameInside d) (Sending.write_loop p now rs) _
      (after_write-Same p now _ s d h) (write_loop-Same p now d rs)
write_loop-Same p now d (Sending.interrupted ∷ rs) s h =
    EndHolds-while_body (SameInside d) (Sending.write_loop p now rs) (proceeds s) h
      (write_loop-Same p now d rs)
write_loop-Same p now d (Sending.again ∷ rs) s h = ground arith
write_loop-Same p now d (Sending.failed ∷ rs) s h = h

after_loop-Same :
    (d : Connection) (e : Sending.WriteEnd)
    → EndHolds (SameInside d) e
    → SentSame d (Sending.after_loop e)
after_loop-Same d (Sending.ended s) h = ground arith
after_loop-Same d (Sending.reset s) h = h
after_loop-Same d (Sending.unfinished s) h = h
after_loop-Same d Sending.broken h = tt

loop-Same :
    (p : Params) (now : ℕ) (d : Connection) (rs : List Sending.WriteResult) (s : Sending.Sending)
    → SameInside d s
    → SentSame d (Sending.after_loop (Sending.write_loop p now rs s))
loop-Same p now d rs s h = after_loop-Same d _ (write_loop-Same p now d rs s h)

send_limited-Same :
    (p : Params) (env : Sending.WriteEnv) (c d : Connection) (k : Sending.Chunk) (r : LbReturnValue)
    (body : ℕ)
    → Same d c
    → SentSame d (Sending.send_limited p env c k r body)
unfolding Sending.send_limited
send_limited-Same p env c d k unlimited body h =
    ground (arith, loop-Same p env.now d env.results (Sending.start_loop c k body false) h)
send_limited-Same p env c d k proceed body h =
    ground (arith, loop-Same p env.now d env.results (Sending.start_loop c k body false) h)
send_limited-Same p env c d k lockstep body h =
    ground (
      arith,
      loop-Same p env.now d env.results (Sending.start_loop (Sending.timed c) k body true) h,
    )
send_limited-Same p env c d k go_sleep body h =
    ground (
      arith,
      loop-Same p env.now d env.results (Sending.start_loop (Sending.timed c) k body false) h,
    )

send_body-Same :
    (p : Params) (env : Sending.WriteEnv) (c d : Connection) (k : Sending.Chunk)
    (limited : Option (LbReturnValue × ℕ))
    → Same d c
    → SentSame d (Sending.send_body p env c k limited)
send_body-Same p env c d k none h = tt
send_body-Same p env c d k (some (r, body)) h = send_limited-Same p env c d k r body h

send_chunk-Same :
    (p : Params) (env : Sending.WriteEnv) (d : Connection)
    (o : Outcome (Sending.Chunk × Connection))
    → Holds (λ kc. Same d kc.1) o
    → SentSame d (Sending.send_chunk p env o)
send_chunk-Same p env d (proceeds (k, c)) h =
    if_lem (SentSame d) (k.available_header + k.available_body == 0) _ _
      (if_lem (SentSame d) (total_size c.data_spec == c.data_spec.once_size || p.websocket_enable) _
        _ h tt)
      (send_body-Same p env c d k _ h)
send_chunk-Same p env d (exits status) h = tt
send_chunk-Same p env d faults h = tt

pub process_write-Same :
    (p : Params) (env : Sending.WriteEnv) (c : Connection)
    → SentSame c (Sending.process_write p env c)
unfolding Sending.process_write
process_write-Same p env c = send_chunk-Same p env c _ (chunk-Same p env.anew env.wall_clock c)

pub process_read-Same :
    (p : Params) (allowed : ℕ) (r : Receiving.ReadResult) (c : Connection)
    → FateSame c (Receiving.process_read p allowed r c)
unfolding Receiving.process_read
process_read-Same p allowed r c = ground arith

pub passive_read-Same :
    (accept_of : Bytes → Bytes) (r : Receiving.ReadResult) (s : Bytes) (written : Bool)
    (c : Connection)
    → FateSame c (Receiving.passive_websocket_read accept_of r s written c)
unfolding Receiving.passive_websocket_read
passive_read-Same accept_of r s written c = ground arith
