-- ===== src/Worker/Sending/Chunks.antt =====
-- The chunk that a write starts with: it stands at the connection's offset and fits in the data.
use tcpkali.Base.{
  ℕ, ◌+◌, ◌-◌, ◌^◌, ◌≤◌, ◌<◌, ◌≡◌, ◌≢◌, refl, ◌⊎◌, inl, inr, Bool, true, false, ◌&&◌, ◌||◌,
  Bool-cases, Bytes, List, [], ◌∷◌, length, none, ltb, ltb→lt, ◌==◌, arith,
}
use tcpkali.Transport.Payload.{total_size}
use tcpkali.Engine.Channel.{}
use tcpkali.Worker.Traffic.{wide_subtract}
use tcpkali.Worker.Connections.{Connection, Params, Outcome, proceeds, exits, faults}
use tcpkali.Worker.Sending
use tcpkali.Worker.Sending.Placed.{restart}
use tcpkali.Worker.Sending.Stream.{PlacedIn, GetsPast, Clear}

-- No write ends in the header while messages follow it: the header is sent, or only the upgrade
-- request goes out, or there are no messages, or the first takes more than the whole header.
abbrev pub Unsplit : Params → Connection → List Sending.WriteResult → Type 0
Unsplit p c rs =
    (c.data_spec.once_size ≤ c.traffic_ongoing.bytes_sent)
    ⊎ (Sending.only_upgrade p c ≡ true)
    ⊎ (total_size c.data_spec ≡ c.data_spec.once_size)
    ⊎ GetsPast c.data_spec.once_size rs

pub exact : (a b : ℕ) → b ≤ a → a < 2 ^ 64 → wide_subtract a b ≡ a - b
exact a b h small = omega arith

-- A chunk of the connection, with `rs` to come.
pub record IsChunk (before : Bytes) (rs : List Sending.WriteResult) (p : Params) (c : Connection)
    (k : Sending.Chunk) : Type 0 where
  pub placed : PlacedIn c before
  pub at_offset : k.position ≡ c.write_offset
  pub room : k.position + (k.available_header + k.available_body) ≤ total_size c.data_spec
  pub clear : Clear k.available_header k.available_body rs
  pub left :
      k.available_header + k.available_body ≡ 0
      → ((total_size c.data_spec == c.data_spec.once_size || p.websocket_enable) ≡ true)

-- What a chunk leaves alone.
abbrev pub Setup : Connection → Connection → Type 0
Setup c d =
    (d.data_spec ≡ c.data_spec)
    × (d.send_limit ≡ c.send_limit)
    × (d.sent_timestamps ≡ c.sent_timestamps)
    × (d.traffic_ongoing ≡ c.traffic_ongoing)

abbrev pub ChunkFor :
    Bytes
    → List Sending.WriteResult
    → Params
    → Connection
    → Outcome (Sending.Chunk × Connection)
    → Type 0
ChunkFor before rs p c (proceeds (k, d)) = IsChunk before rs p d k × Setup c d
ChunkFor before rs p c (exits status) = ⊥
ChunkFor before rs p c faults = ⊥

upgrading :
    (p : Params) (c : Connection)
    → Sending.only_upgrade p c ≡ true
    → (c.traffic_ongoing.bytes_sent ≤ c.data_spec.ws_hdr_size) × (p.websocket_enable ≡ true)
upgrading p c h = ground arith

upgrade-IsChunk :
    (p : Params) (c : Connection) (before : Bytes) (rs : List Sending.WriteResult)
    → PlacedIn c before
    → total_size c.data_spec < 2 ^ 64
    → Sending.only_upgrade p c ≡ true
    → IsChunk before rs p c (record {
      position = c.write_offset;
      available_header = wide_subtract c.data_spec.ws_hdr_size c.write_offset;
      available_body = 0;
    })
upgrade-IsChunk p c before rs placed small h =
    let (below, enabled) = upgrading p c h in
    let at : c.write_offset ≡ length before =
      placed.early (omega (arith, placed.counted, placed.hdr_within)) in
    let size =
      exact c.data_spec.ws_hdr_size c.write_offset (omega (arith, at, placed.counted))
        (omega (arith, placed.hdr_within, placed.once_within)) in
    record {
      placed = placed;
      at_offset = refl;
      room = omega (arith, size, placed.hdr_within, placed.once_within, placed.within);
      clear = inl refl;
      left = λ e. ground arith;
    }

stamped_plain :
    (p : Params) (ts : ℕ) (k : Sending.Chunk) (c : Connection)
    → p.message_marker ≡ false
    → Sending.stamped p ts k c ≡ proceeds (k, c)
stamped_plain p ts k c h = ground arith

header_cases :
    (c : Connection)
    → ((c.traffic_ongoing.bytes_sent < c.data_spec.once_size)
        × (Sending.header_left c ≡ c.data_spec.once_size - c.traffic_ongoing.bytes_sent))
      ⊎ ((c.data_spec.once_size ≤ c.traffic_ongoing.bytes_sent) × (Sending.header_left c ≡ 0))
header_cases c = elim (Bool-cases (ltb c.traffic_ongoing.bytes_sent c.data_spec.once_size)) [
  | inl h ↦ inl (ltb→lt _ _ h, rw h refl)
  | inr h ↦ inr (ground arith, rw h refl)
]

header_fits :
    (p : Params) (c : Connection) (before : Bytes)
    → PlacedIn c before
    → total_size c.data_spec < 2 ^ 64
    → Sending.header_left c ≤ wide_subtract (total_size c.data_spec) c.write_offset
header_fits p c before placed small =
    let offset = exact (total_size c.data_spec) c.write_offset placed.within small in
    elim (header_cases c) [
      | inl (begun, e) ↦
          let at : c.write_offset ≡ length before = placed.early (omega (arith, placed.counted)) in
          omega (arith, offset, e, at, placed.counted, placed.once_within)
      | inr (over, e) ↦ omega (arith, e)
    ]

GetsPast-mono : (h k : ℕ) (rs : List Sending.WriteResult) → h ≤ k → GetsPast k rs → GetsPast h rs
GetsPast-mono h k [] le e = tt
GetsPast-mono h k (Sending.wrote n ∷ rs) le e = omega arith
GetsPast-mono h k (Sending.interrupted ∷ rs) le e = GetsPast-mono h k rs le e
GetsPast-mono h k (Sending.again ∷ rs) le e = tt
GetsPast-mono h k (Sending.failed ∷ rs) le e = tt

-- The cases of `Unsplit`, where a header is left.
begun_clear :
    (p : Params) (c : Connection) (before : Bytes) (rs : List Sending.WriteResult)
    → PlacedIn c before
    → total_size c.data_spec < 2 ^ 64
    → Sending.only_upgrade p c ≡ false
    → c.traffic_ongoing.bytes_sent < c.data_spec.once_size
    → Sending.header_left c ≡ c.data_spec.once_size - c.traffic_ongoing.bytes_sent
    → Unsplit p c rs
    → Clear
        (Sending.header_left c)
        (wide_subtract
          (wide_subtract (total_size c.data_spec) c.write_offset)
          (Sending.header_left c))
        rs
begun_clear p c before rs placed small never begun e (inl over) = inr (inl (omega arith))
begun_clear p c before rs placed small never begun e (inr (inl upgrade)) = cc
begun_clear p c before rs placed small never begun e (inr (inr (inl all))) =
    let offset = exact (total_size c.data_spec) c.write_offset placed.within small in
    let fits = header_fits p c before placed small in
    let body =
      exact (wide_subtract (total_size c.data_spec) c.write_offset) (Sending.header_left c) fits
        (omega (arith, offset)) in
    let at : c.write_offset ≡ length before = placed.early (omega (arith, placed.counted)) in
    inl (omega (arith, offset, body, e, at, all, placed.counted))
begun_clear p c before rs placed small never begun e (inr (inr (inr past))) =
    inr
      (inr (GetsPast-mono (Sending.header_left c) c.data_spec.once_size rs (omega (arith, e)) past))

header_clear :
    (p : Params) (c : Connection) (before : Bytes) (rs : List Sending.WriteResult)
    → PlacedIn c before
    → total_size c.data_spec < 2 ^ 64
    → Sending.only_upgrade p c ≡ false
    → Unsplit p c rs
    → Clear
        (Sending.header_left c)
        (wide_subtract
          (wide_subtract (total_size c.data_spec) c.write_offset)
          (Sending.header_left c))
        rs
header_clear p c before rs placed small never whole = elim (header_cases c) [
  | inl (begun, e) ↦ begun_clear p c before rs placed small never begun e whole
  | inr (over, e) ↦ inr (inl e)
]

same_or : (a b : ℕ) (w : Bool) → a ≡ b → ((a == b || w) ≡ true)
same_or a b w e = ground arith

-- The chunk inside the buffer.
inner-IsChunk :
    (p : Params) (c : Connection) (before : Bytes) (rs : List Sending.WriteResult)
    → PlacedIn c before
    → total_size c.data_spec < 2 ^ 64
    → Sending.only_upgrade p c ≡ false
    → Unsplit p c rs
    → wide_subtract (total_size c.data_spec) c.write_offset ≢ 0
    → IsChunk before rs p c (record {
      position = c.write_offset;
      available_header = Sending.header_left c;
      available_body =
          wide_subtract
            (wide_subtract (total_size c.data_spec) c.write_offset)
            (Sending.header_left c);
    })
inner-IsChunk p c before rs placed small never whole some_left =
    let offset = exact (total_size c.data_spec) c.write_offset placed.within small in
    let body =
      exact (wide_subtract (total_size c.data_spec) c.write_offset) (Sending.header_left c)
        (header_fits p c before placed small) (omega (arith, offset)) in
    let fits = header_fits p c before placed small in
    record {
      placed = placed;
      at_offset = refl;
      room = omega (arith, offset, body, fits, placed.within);
      clear = header_clear p c before rs placed small never whole;
      left = λ e. absurd (some_left (omega (arith, e, body, fits)));
    }

last-IsChunk :
    (p : Params) (c : Connection) (before : Bytes) (rs : List Sending.WriteResult)
    → PlacedIn c before
    → total_size c.data_spec < 2 ^ 64
    → c.data_spec.once_size ≤ c.traffic_ongoing.bytes_sent
    → c.write_offset ≡ total_size c.data_spec
    → IsChunk before rs p (Sending.behind_once c) (Sending.first_body (Sending.behind_once c))
last-IsChunk p c before rs placed small over ends =
    let size = exact (total_size c.data_spec) c.data_spec.once_size placed.once_within small in
    record {
      placed =
          restart c.data_spec c.write_offset c.traffic_ongoing.bytes_sent before ends over placed;
      at_offset = refl;
      room = omega (arith, size, placed.once_within);
      clear = inr (inl refl);
      left = λ e.
          same_or (total_size c.data_spec) c.data_spec.once_size p.websocket_enable
            (omega (arith, e, size, placed.once_within));
    }

no_header_lost :
    (c : Connection) (before : Bytes)
    → PlacedIn c before
    → total_size c.data_spec < 2 ^ 64
    → wide_subtract (total_size c.data_spec) c.write_offset ≡ 0
    → c.data_spec.once_size ≤ c.traffic_ongoing.bytes_sent
no_header_lost c before placed small e = elim (header_cases c) [
  | inl (begun, h) ↦
      let at : c.write_offset ≡ length before = placed.early (omega (arith, placed.counted)) in
      let offset = exact (total_size c.data_spec) c.write_offset placed.within small in
      omega (arith, e, offset, at, placed.counted, placed.once_within)
  | inr (over, h) ↦ over
]

assertion_holds : (a b e : ℕ) → ((e ≡ 0) → b ≤ a) → (ltb a b && e == 0) ≡ false
assertion_holds a b e h = ground arith

later_chunk :
    (p : Params) (ts : ℕ) (c : Connection) (before : Bytes) (rs : List Sending.WriteResult)
    → p.message_marker ≡ false
    → PlacedIn c before
    → total_size c.data_spec < 2 ^ 64
    → Sending.only_upgrade p c ≡ false
    → Unsplit p c rs
    → ChunkFor before rs p c (Sending.chunk_inside p none ts c)
later_chunk p ts c before rs plain placed small never whole =
    elim (Bool-cases (wide_subtract (total_size c.data_spec) c.write_offset == 0)) [
      | inl ends ↦
          let none_left : wide_subtract (total_size c.data_spec) c.write_offset ≡ 0 =
            ground arith in
          rw
            (
              ends,
              stamped_plain p ts (Sending.first_body (Sending.behind_once c))
                  (Sending.behind_once c) plain,
            )
            (
              last-IsChunk p c before rs placed small
                  (no_header_lost c before placed small none_left)
                  (omega (
                    arith,
                    none_left,
                    exact (total_size c.data_spec) c.write_offset placed.within small,
                    placed.within,
                  )),
              (refl, refl, refl, refl),
            )
      | inr more ↦
          rw (more, stamped_plain p ts _ c plain)
            (
              inner-IsChunk p c before rs placed small never whole (ground arith),
              (refl, refl, refl, refl),
            )
    ]

pub chunk-ChunkFor :
    (p : Params) (ts : ℕ) (c : Connection) (before : Bytes) (rs : List Sending.WriteResult)
    → p.message_marker ≡ false
    → PlacedIn c before
    → total_size c.data_spec < 2 ^ 64
    → Unsplit p c rs
    → ChunkFor before rs p c (Sending.largest_contiguous_chunk p none ts c)
unfolding Sending.largest_contiguous_chunk
chunk-ChunkFor p ts c before rs plain placed small whole =
    let size = wide_subtract (total_size c.data_spec) c.write_offset in
    elim (Bool-cases (Sending.only_upgrade p c)) [
      | inl h ↦ rw h (upgrade-IsChunk p c before rs placed small h, (refl, refl, refl, refl))
      | inr h ↦
          rw
            (
              h,
              assertion_holds c.traffic_ongoing.bytes_sent c.data_spec.once_size size
                  (no_header_lost c before placed small),
            )
            (later_chunk p ts c before rs plain placed small h whole)
    ]
