-- ===== src/Worker/Sending/Stream.antt =====
-- The write loop puts out the data in order, from where the connection stands.
use tcpkali.Base.{
  ℕ, ◌+◌, ◌-◌, ◌^◌, ◌≤◌, ◌<◌, ◌≡◌, refl, sym, ap, subst, ◌⊎◌, inl, inr, true, Bool-cases, Bytes,
  List, [], ◌∷◌, ◌++◌, append_assoc, take, drop, min, ltb, ◌==◌, arith,
}
use tcpkali.Transport.Payload.{DataSpec, total_size}
use tcpkali.Worker.Connections.{
  BandwidthLimit, Connection, Params, Outcome, proceeds, exits, faults,
}
use tcpkali.Worker.Outcomes.{Holds, Holds-bind, if_lem, EndHolds}
use tcpkali.Worker.Sending.{
  WriteResult, wrote, interrupted, again, failed, Sending, WriteEnd, ended, while_body, offered,
  count_write, taken, moved, not_moved, after_write, write_loop, latency_record_outgoing_ts,
}
use tcpkali.Worker.Sending.Placed.{Placed, advance}

abbrev pub PlacedIn : Connection → Bytes → Type 0
PlacedIn c sent = Placed c.data_spec c.write_offset c.traffic_ongoing.bytes_sent sent

-- What counting the messages leaves alone.
record View : Type 0 where
  data_spec : DataSpec
  write_offset : ℕ
  bytes_sent : ℕ
  send_limit : BandwidthLimit

abbrev view : Connection → View
view c = record {
  data_spec = c.data_spec;
  write_offset = c.write_offset;
  bytes_sent = c.traffic_ongoing.bytes_sent;
  send_limit = c.send_limit;
}

outgoing_ts-view :
    (p : Params) (now n : ℕ) (c : Connection)
    → Holds (λ d. view d ≡ view c) (latency_record_outgoing_ts p now n c)
unfolding latency_record_outgoing_ts
outgoing_ts-view p now n c = ground arith

-- The loop stands at the connection's offset, with room for what it is to send.
pub record AtLoop (before : Bytes) (s : Sending) : Type 0 where
  pub placed : PlacedIn s.connection (before ++ s.sent)
  pub at_offset : s.position ≡ s.connection.write_offset
  pub room :
      s.position + (s.available_header + s.available_body) ≤ total_size s.connection.data_spec
  pub small :
      s.connection.traffic_ongoing.bytes_sent + (s.available_header + s.available_body) < 2 ^ 64

-- The first call that takes something gets past the header.
abbrev pub GetsPast : ℕ → List WriteResult → Type 0
GetsPast header [] = Unit
GetsPast header (wrote n ∷ rs) = header < n
GetsPast header (interrupted ∷ rs) = GetsPast header rs
GetsPast header (again ∷ rs) = Unit
GetsPast header (failed ∷ rs) = Unit

-- No write ends in a header that a body follows.
abbrev pub Clear : ℕ → ℕ → List WriteResult → Type 0
Clear header body rs = (body ≡ 0) ⊎ (header ≡ 0) ⊎ GetsPast header rs

-- A write offers more than the header, where there is a body.
abbrev pub Paced : Params → Connection → Type 0
Paced p c = (p.write_combine ≡ true) ⊎ (0 < c.send_limit.minimal_move_size)

abbrev Good : Params → Bytes → List WriteResult → Sending → Type 0
Good p before rs t =
    PlacedIn t.connection (before ++ t.sent)
    × ((t.available_body ≡ 0)
        ⊎ (AtLoop before t × Clear t.available_header t.available_body rs × Paced p t.connection))

offered_fits : (p : Params) (s : Sending) → offered p s ≤ s.available_header + s.available_body
offered_fits p s = ground arith

pub offered_past :
    (p : Params) (s : Sending)
    → Paced p s.connection
    → 0 < s.available_body
    → s.available_header < offered p s
offered_past p s h pos = ground arith

-- The bytes taken go behind those sent.
taken_placed :
    (before : Bytes) (s : Sending) (n : ℕ)
    → n ≤ s.available_header + s.available_body
    → AtLoop before s
    → PlacedIn (count_write n s.connection) (before ++ (s.sent ++ taken n s))
taken_placed before s n fits h =
    subst (PlacedIn (count_write n s.connection)) (append_assoc before s.sent (taken n s)) (
      ap_taken (
        advance s.connection.data_spec s.connection.write_offset
          s.connection.traffic_ongoing.bytes_sent n (before ++ s.sent)
          (omega (arith, h.room, h.at_offset)) (omega (arith, h.small)) h.placed))
  where
    ap_taken :
        PlacedIn (count_write n s.connection) (
          (before ++ s.sent)
          ++ take n (drop s.connection.write_offset s.connection.data_spec.contents))
        → PlacedIn (count_write n s.connection) ((before ++ s.sent) ++ taken n s)
    ap_taken =
        subst
          (λ k.
            PlacedIn (count_write n s.connection)
              ((before ++ s.sent) ++ take n (drop k s.connection.data_spec.contents)))
          (sym h.at_offset)

view-Placed :
    (c d : Connection) (sent : Bytes) → view d ≡ view c → PlacedIn c sent → PlacedIn d sent
view-Placed c d sent e = subst (λ v. Placed v.data_spec v.write_offset v.bytes_sent sent) (sym e)

view-Paced : (p : Params) (c d : Connection) → view d ≡ view c → Paced p c → Paced p d
view-Paced p c d e =
    subst (λ v. (p.write_combine ≡ true) ⊎ (0 < v.send_limit.minimal_move_size)) (sym e)

-- A write that gets past the header.
moved-Good :
    (p : Params) (before : Bytes) (rs : List WriteResult) (s : Sending) (n : ℕ) (d : Connection)
    → n ≤ s.available_header + s.available_body
    → s.available_header < n
    → AtLoop before s
    → Paced p s.connection
    → view d ≡ view (count_write n s.connection)
    → Good p before rs (moved n s d)
moved-Good p before rs s n d fits past h paced e =
    let placed =
      view-Placed (count_write n s.connection) d (before ++ (s.sent ++ taken n s)) e
        (taken_placed before s n fits h) in
    let same_data = ap (λ v. total_size v.data_spec) e in
    let same_offset = ap (λ v. v.write_offset) e in
    let same_bytes = ap (λ v. v.bytes_sent) e in
    (
      placed,
      inr (
        record {
          placed = placed;
          at_offset = omega (arith, h.at_offset, same_offset);
          room = omega (arith, h.room, same_data);
          small = omega (arith, h.small, same_bytes);
        },
        inr (inl refl),
        view-Paced p (count_write n s.connection) d e paced,
      ),
    )

-- One that does not takes nothing, or is the last.
not_moved-Good :
    (p : Params) (before : Bytes) (rs : List WriteResult) (s : Sending) (n : ℕ)
    → n ≤ s.available_header + s.available_body
    → AtLoop before s
    → Paced p s.connection
    → (s.available_body ≡ 0) ⊎ ((n ≡ 0) × Clear s.available_header s.available_body rs)
    → Good p before rs (not_moved n s (count_write n s.connection))
not_moved-Good p before rs s n fits h paced (inl none_left) =
    (taken_placed before s n fits h, inl none_left)
not_moved-Good p before rs s n fits h paced (inr (nothing, clear)) =
    let placed = taken_placed before s n fits h in
    (
      placed,
      inr (
        record {
          placed = placed;
          at_offset = omega (arith, h.at_offset, nothing);
          room = h.room;
          small = omega (arith, h.small, nothing);
        },
        clear,
        paced,
      ),
    )

after_write-Good :
    (p : Params) (now n : ℕ) (before : Bytes) (rs : List WriteResult) (s : Sending)
    → AtLoop before s
    → Clear s.available_header s.available_body (wrote n ∷ rs)
    → Paced p s.connection
    → Holds (Good p before rs) (after_write p now (min n (offered p s)) s)
unfolding after_write
after_write-Good p now n before rs s h clear paced =
    let k = min n (offered p s) in
    let fits : k ≤ s.available_header + s.available_body = omega (arith, offered_fits p s) in
    elim (Bool-cases (ltb s.available_header k)) [
      | inl past ↦ rw past (
          Holds-bind (λ d. view d ≡ view (count_write k s.connection)) (Good p before rs)
            (latency_record_outgoing_ts p now (k - s.available_header) (count_write k s.connection))
            (λ d. proceeds (moved k s d))
            (outgoing_ts-view p now (k - s.available_header) (count_write k s.connection))
            λ d e. moved-Good p before rs s k d fits (ground arith) h paced e)
      | inr stays ↦
          rw stays (
            not_moved-Good p before rs s k fits h paced (still p n rs s paced clear (ground arith)))
    ]
  where
    still :
        (p : Params) (n : ℕ) (rs : List WriteResult) (s : Sending)
        → Paced p s.connection
        → Clear s.available_header s.available_body (wrote n ∷ rs)
        → min n (offered p s) ≤ s.available_header
        → (s.available_body ≡ 0)
          ⊎ ((min n (offered p s) ≡ 0) × Clear s.available_header s.available_body rs)
    still p n rs s paced (inl e) small = inl e
    still p n rs s paced (inr (inl e)) small = inr (omega arith, inr (inl e))
    still p n rs s paced (inr (inr over)) small = elim (zero_or_more s.available_body) [
      | inl e ↦ inl e
      | inr pos ↦ inl (omega (arith, over, offered_past p s paced pos, small))
    ]
      where
        zero_or_more : (n : ℕ) → (n ≡ 0) ⊎ (0 < n)
        zero_or_more n = ground arith

abbrev pub InPlace : Bytes → Sending → Type 0
InPlace before s = PlacedIn s.connection (before ++ s.sent)

while_body-InPlace :
    (p : Params) (before : Bytes) (rs : List WriteResult) (more : Sending → WriteEnd)
    (o : Outcome Sending)
    → Holds (Good p before rs) o
    → ((s : Sending)
        → AtLoop before s
        → Clear s.available_header s.available_body rs
        → Paced p s.connection
        → EndHolds (InPlace before) (more s))
    → EndHolds (InPlace before) (while_body more o)
while_body-InPlace p before rs more (proceeds s) (placed, inl e) k = ground arith
while_body-InPlace p before rs more (proceeds s) (placed, inr (h, clear, paced)) k =
    if_lem (EndHolds (InPlace before)) (s.available_body == 0) (ended s) (more s) placed
      (k s h clear paced)
while_body-InPlace p before rs more (exits status) h k = tt
while_body-InPlace p before rs more faults h k = tt

-- A call that was interrupted.
next_clear :
    (header body : ℕ) (rs : List WriteResult)
    → Clear header body (interrupted ∷ rs)
    → Clear header body rs
next_clear header body rs (inl e) = inl e
next_clear header body rs (inr h) = inr h

pub write_loop-InPlace :
    (p : Params) (now : ℕ) (before : Bytes) (rs : List WriteResult) (s : Sending)
    → AtLoop before s
    → Clear s.available_header s.available_body rs
    → Paced p s.connection
    → EndHolds (InPlace before) (write_loop p now rs s)
unfolding write_loop
write_loop-InPlace p now before [] s h clear paced = h.placed
write_loop-InPlace p now before (wrote n ∷ rs) s h clear paced =
    while_body-InPlace p before rs (write_loop p now rs) _
      (after_write-Good p now n before rs s h clear paced) (write_loop-InPlace p now before rs)
write_loop-InPlace p now before (interrupted ∷ rs) s h clear paced =
    while_body-InPlace p before rs (write_loop p now rs) (proceeds s)
      (h.placed, inr (h, next_clear s.available_header s.available_body rs clear, paced))
      (write_loop-InPlace p now before rs)
write_loop-InPlace p now before (again ∷ rs) s h clear paced =
    if_lem (InPlace before) s.is_lockstep _ s h.placed h.placed
write_loop-InPlace p now before (failed ∷ rs) s h clear paced = h.placed
