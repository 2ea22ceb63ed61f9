-- ===== src/Worker/Chunk.antt =====
-- `largest_contiguous_chunk` of src/tcpkali_engine.c: where a write starts, and how much of the header
-- and of the messages it may send. The clock and the messages made anew are arguments.
use tcpkali.Base.{
  ℕ, ◌+◌, ◌-◌, Bool, true, false, not, ◌&&◌, Bytes, ◌++◌, Option, none, some, length, take, drop,
  ltb, leb, ◌==◌, if◌then◌else◌,
}
use tcpkali.Transport.Payload.{DataSpec, total_size}
use tcpkali.Engine.Marker.{token, override_timestamp, update_timestamps}
use tcpkali.Engine.Channel.{}
use tcpkali.Worker.Traffic.{wide_subtract}
use tcpkali.Worker.Connections.{
  WsState, sending_http_upgrade, ws_established, Connection, Params, Outcome, proceeds, faults,
  ◌>>=◌,
}

-- `*position`, counted from `data.ptr`, and the two sizes.
pub record Chunk : Type 0 where
  pub position : ℕ
  pub available_header : ℕ
  pub available_body : ℕ

abbrev pub is_upgrading : WsState → Bool
is_upgrading sending_http_upgrade = true
is_upgrading ws_established = false

abbrev pub only_upgrade : Params → Connection → Bool
only_upgrade p c =
    c.traffic_ongoing.bytes_rcvd == 0
    && (leb c.traffic_ongoing.bytes_sent c.data_spec.ws_hdr_size
        && (is_upgrading c.ws_state && p.websocket_enable))

abbrev pub rewritten : Connection → Bytes → Connection
rewritten c s = record c { data_spec = record c.data_spec { contents = s } }

abbrev pub or_fault {ℓ} : {A : Type ℓ} → Option A → Outcome A
or_fault none = faults
or_fault (some a) = proceeds a

-- A known marker in front of the end of `position` gets the time; the size given is the body's.
abbrev pub stamp_known : ℕ → ℕ → ℕ → Connection → Outcome Connection
stamp_known m size ts c =
    if ltb size (length token + 16 + 1)
    then faults
    else or_fault (override_timestamp (drop m c.data_spec.contents) ts) >>= λ s.
        proceeds (rewritten c (take m c.data_spec.contents ++ s))

abbrev pub stamp_found : ℕ → ℕ → ℕ → Connection → Connection
stamp_found position size ts c =
    let s = c.data_spec.contents in
    rewritten c (
      take position s
      ++ (update_timestamps size ts (take size (drop position s)) ++ drop (position + size) s))

abbrev pub is_before : ℕ → Option ℕ → Bool
is_before position none = false
is_before position (some m) = ltb position m

abbrev pub or_zero : Option ℕ → ℕ
or_zero none = 0
or_zero (some m) = m

-- The marker's time, where messages have markers.
abbrev pub stamped : Params → ℕ → Chunk → Connection → Outcome (Chunk × Connection)
stamped p ts k c =
    if not p.message_marker
    then proceeds (k, c)
    else if is_before k.position c.data_spec.marker_token_ptr
    then (stamp_known (or_zero c.data_spec.marker_token_ptr) k.available_body ts c >>= λ d.
        proceeds (k, d))
    else proceeds (k, stamp_found k.position k.available_body ts c)

abbrev pub header_left : Connection → ℕ
header_left c =
    if ltb c.traffic_ongoing.bytes_sent c.data_spec.once_size
    then c.data_spec.once_size - c.traffic_ongoing.bytes_sent
    else 0

abbrev pub with_data : Connection → DataSpec → Connection
with_data c d = record c { data_spec = d }

-- `explode_data_template_override`, where messages are made anew each time.
abbrev pub made_anew : Option DataSpec → Connection → Connection
made_anew none c = c
made_anew (some d) c = with_data c d

abbrev pub behind_once : Connection → Connection
behind_once c = record c { write_offset = c.data_spec.once_size }

abbrev pub first_body : Connection → Chunk
first_body c = record {
  position = c.data_spec.once_size;
  available_header = 0;
  available_body = wide_subtract (total_size c.data_spec) c.data_spec.once_size;
}

-- The chunk where not only the upgrade request is to be sent.
abbrev pub chunk_inside : Params → Option DataSpec → ℕ → Connection → Outcome (Chunk × Connection)
chunk_inside p anew ts c =
    let available = wide_subtract (total_size c.data_spec) c.write_offset in
    let restarted = behind_once (made_anew anew c) in
    if available == 0
    then stamped p ts (first_body restarted) restarted
    else stamped p ts
        (record {
          position = c.write_offset;
          available_header = header_left c;
          available_body = wide_subtract available (header_left c);
        })
        c

-- The assertion is that a header which is not sent stands in the buffer.
unfoldable pub largest_contiguous_chunk :
    Params → Option DataSpec → ℕ → Connection → Outcome (Chunk × Connection)
largest_contiguous_chunk p anew ts c =
    let available = wide_subtract (total_size c.data_spec) c.write_offset in
    let inside = chunk_inside p anew ts c in
    if only_upgrade p c
    then proceeds (
      record {
        position = c.write_offset;
        available_header = wide_subtract c.data_spec.ws_hdr_size c.write_offset;
        available_body = 0;
      },
      c,
    )
    else if ltb c.traffic_ongoing.bytes_sent c.data_spec.once_size && available == 0
    then faults
    else inside
