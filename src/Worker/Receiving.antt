-- ===== src/Worker/Receiving.antt =====
-- The reads of `connection_cb` and `passive_websocket_cb` of src/tcpkali_engine.c, for connections
-- without --ssl. What `read` returns and what is made of the bytes by `latency_record_incoming_ts`
-- and `scan_incoming_bytes` are arguments.
use tcpkali.Base.{ℕ, Bool, true, false, not, ◌&&◌, Bytes, none, some, ◌==◌, if◌then◌else◌}
use tcpkali.Transport.Payload.{total_size}
use tcpkali.WebSocket.Detect.{
  Rval, not_enough_data, websocket_detected, truncated_input, unexpected_error, detect,
}
use tcpkali.Engine.Channel.{
  tk_read, LbReturnValue, unlimited, proceed, lockstep, go_sleep, limit_channel_bandwidth,
}
use tcpkali.Worker.Traffic.{wide_add}
use tcpkali.Worker.Connections.{ws_established, Connection, Params}
use tcpkali.Worker.Close.{CloseReason, ccr_remote, ccr_data}
use tcpkali.Worker.Sending.{is_upgrading, with_wish}

-- What the bytes of a read lead to: some messages found in them, or the end of the process.
pub data Recorded : Type 0 where
  counted aborted : ℕ → Recorded

-- A number of bytes that is not 0, with what they lead to; 0; EAGAIN; EINTR; or another error.
pub data ReadResult : Type 0 where
  received : ℕ → Recorded → ReadResult
  half_closed would_block read_interrupted read_failed : ReadResult

pub data Fate : Type 0 where
  keeps : Connection → Fate
  dies : Connection → CloseReason → Fate
  quits : ℕ → Fate
  broken : Fate

abbrev pub count_read : ℕ → ℕ → Connection → Connection
count_read n messages c = record c {
  traffic_ongoing = record c.traffic_ongoing {
    num_reads = wide_add c.traffic_ongoing.num_reads 1;
    bytes_rcvd = wide_add c.traffic_ongoing.bytes_rcvd n;
    msgs_rcvd = wide_add c.traffic_ongoing.msgs_rcvd messages;
  };
}

-- The first bytes from the server let the messages follow the upgrade request.
abbrev pub upgraded : Params → Connection → Connection
upgraded p c =
    if c.traffic_ongoing.bytes_rcvd == 0
      && (is_upgrading c.ws_state
          && (p.websocket_enable && not (c.data_spec.ws_hdr_size == total_size c.data_spec)))
    then with_wish (record c { ws_state = ws_established })
        (record c.conn_wish { write_interest = true })
    else c

abbrev pub after_read : Params → ReadResult → Connection → Fate
after_read p (received n (counted messages)) c = keeps (count_read n messages (upgraded p c))
after_read p (received n (aborted status)) c = quits status
after_read p half_closed c = dies c ccr_remote
after_read p would_block c = keeps c
after_read p read_interrupted c = keeps c
after_read p read_failed c = dies c ccr_remote

abbrev pub scratch_size : ℕ
scratch_size = 16384

abbrev pub blocked_read : Connection → Connection
blocked_read c =
    with_wish (record c { timer_started = true }) (record c.conn_wish { read_blocked = true })

-- `lockstep` is an assertion; a read of no bytes is another.
abbrev pub read_limited : Params → ReadResult → Connection → LbReturnValue → ℕ → Fate
read_limited p r c lockstep size = broken
read_limited p r c go_sleep size = keeps (blocked_read c)
read_limited p r c unlimited size = if size == 0 then broken else after_read p r c
read_limited p r c proceed size = if size == 0 then broken else after_read p r c

unfoldable pub process_read : Params → ℕ → ReadResult → Connection → Fate
process_read p allowed r c =
    if p.websocket_enable && is_upgrading c.ws_state
    then after_read p r c
    else elim (limit_channel_bandwidth c.recv_limit.is_set c.recv_limit.minimal_move_size allowed
        scratch_size tk_read) [
          | none ↦ broken
          | some (limited, size) ↦ read_limited p r c limited size
        ]

abbrev pub established : Connection → Connection
established c = record c { ws_state = ws_established }

abbrev pub active : Connection → Connection
active c = record (established c) { is_passive = false }

-- The answer is written at once or not at all.
abbrev pub after_detect : Rval → Bool → Connection → Fate
after_detect not_enough_data written c = keeps c
after_detect websocket_detected written c =
    if written then keeps (active c) else dies (established c) ccr_data
after_detect truncated_input written c = dies c ccr_data
after_detect unexpected_error written c = dies c ccr_data

-- With the bytes of the read; `written` is whether `write` takes the whole answer.
unfoldable pub passive_websocket_read :
    (Bytes → Bytes) → ReadResult → Bytes → Bool → Connection → Fate
passive_websocket_read accept_of (received n (counted messages)) s written c =
    after_detect (detect accept_of s).0 written (count_read n messages c)
passive_websocket_read accept_of (received n (aborted status)) s written c = quits status
passive_websocket_read accept_of half_closed s written c = dies c ccr_remote
passive_websocket_read accept_of would_block s written c = keeps c
passive_websocket_read accept_of read_interrupted s written c = dies c ccr_remote
passive_websocket_read accept_of read_failed s written c = dies c ccr_remote
