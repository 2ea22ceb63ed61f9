-- ===== src/Worker/Latency.antt =====
-- The latency of a marker of the user in src/tcpkali_engine.c: `latency_record_outgoing_ts`, which
-- puts a time into the ring buffer for each message sent, and `latency_record_incoming_ts`, which
-- takes one out for each marker found, on a connection with such a marker and no message markers
-- (Worker/Sending has the ring as a list). The search is the third-party `sbmh_feed`, as for messages
-- with markers. The histogram is the list of the samples, each a time of sending and one of
-- receiving: their difference in units of 100 us is floating point, and the histogram ignores one that
-- is too large.
pub mod Fifo
pub mod Matched
pub mod Seen
pub mod Runs
mod Tests
use tcpkali.Base.{
  ℕ, zero, suc, ◌+◌, ◌-◌, ◌*◌, ◌/◌, ◌%◌, ◌^◌, Bool, true, false, ◌&&◌, ◌||◌, Bytes, List, [], ◌∷◌,
  ◌++◌, Option, none, some, length, drop, ltb, leb, ◌==◌, if◌then◌else◌,
}
use tcpkali.Ring.{RingBuffer, add, get}
use tcpkali.Worker.Connections.{Outcome, proceeds, exits, faults, ◌>>=◌}

pub record Sample : Type 0 where
  pub sent_at : ℕ
  pub received_at : ℕ

-- `latency` of `struct connection` with its histogram; C is `sbmh_marker_ctx`.
pub record Latency (C : Type 0) : Type 0 where
  pub sent_timestamps : RingBuffer ℕ
  pub message_bytes_credit : ℕ
  pub marker_ctx : C
  pub lm_occurrences_skip : ℕ
  pub marker_histogram : List Sample

-- The loop of `latency_record_outgoing_ts`: so many messages, and whether the ring has grown.
unfoldable pub add_times : (ℕ → ℕ) → ℕ → ℕ → RingBuffer ℕ → Bool → Outcome (RingBuffer ℕ × Bool)
add_times junk now zero rb grown = proceeds (rb, grown)
add_times junk now (suc n) rb grown = elim (add junk rb now) [
  | none ↦ faults
  | some (next, g) ↦ add_times junk now n next (grown || g)
]

abbrev pub max_ring : ℕ
max_ring = 10 * 1048576

abbrev pub with_ring : {C : Type 0} → Latency C → ℕ → RingBuffer ℕ × Bool → Outcome (Latency C)
with_ring l credit (rb, grown) =
    if grown && ltb max_ring rb.size
    then exits 1
    else proceeds (record l { sent_timestamps = rb; message_bytes_credit = credit })

unfoldable pub latency_record_outgoing :
    {C : Type 0} → (ℕ → ℕ) → ℕ → ℕ → ℕ → Latency C → Outcome (Latency C)
unfolding add_times
latency_record_outgoing junk msgsize now wrote l =
    let pretend_sent = (wrote + l.message_bytes_credit) % 2 ^ 64 in
    let recorded =
      add_times junk now (pretend_sent / msgsize) l.sent_timestamps false
      >>= with_ring l (pretend_sent % msgsize % 2 ^ 32) in
    if msgsize == 0 then faults else recorded

module _ {C : Type 0} (feed : C → Bytes → ℕ × (Bool × C)) (reset : C → C) where
  abbrev pub seek : (ℕ → C → Bytes → ℕ × C) → ℕ → Bytes → ℕ × (Bool × C) → ℕ × C
  seek more num s (n, (true, ctx)) = more ((num + 1) % 2 ^ 32) (reset ctx) (drop n s)
  seek more num s (n, (false, ctx)) = (num, ctx)

  -- The loop over the bytes; a found marker has a byte at least, so that a round per byte is
  -- enough.
  unfoldable pub count_markers : ℕ → ℕ → C → Bytes → ℕ × C
  count_markers zero num ctx s = (num, ctx)
  count_markers (suc rounds) num ctx [] = (num, ctx)
  count_markers (suc rounds) num ctx (c ∷ s) =
      seek (count_markers rounds) num (c ∷ s) (feed ctx (c ∷ s))

-- The markers that count, and what is still to be skipped.
abbrev pub skip_markers : ℕ → ℕ → ℕ × ℕ
skip_markers found skip =
    if skip == 0
    then (found, 0)
    else if leb found skip
    then (0, skip - found)
    else (found - skip, 0)

-- The loop that takes a time for each marker; without one the process ends.
unfoldable pub take_times :
    ℕ → ℕ → RingBuffer ℕ → List Sample → Outcome (RingBuffer ℕ × List Sample)
take_times now zero rb hist = proceeds (rb, hist)
take_times now (suc n) rb hist =
    let (left, got) = get rb in
    elim got [
      | none ↦ exits 1
      | some ts ↦ take_times now n left (hist ++ (record { sent_at = ts; received_at = now } ∷ []))
    ]

abbrev pub with_samples :
    {C : Type 0} → Latency C → RingBuffer ℕ × List Sample → Outcome (Latency C)
with_samples l (rb, hist) = proceeds (record l { sent_timestamps = rb; marker_histogram = hist })

unfoldable pub latency_record_incoming :
    {C : Type 0}
    → (C → Bytes → ℕ × (Bool × C))
    → (C → C)
    → ℕ
    → Bytes
    → Latency C
    → Outcome (Latency C)
unfolding count_markers take_times
latency_record_incoming feed reset now s l =
    let (found, ctx) = count_markers feed reset (length s) 0 l.marker_ctx s in
    let (counting, skip) = skip_markers found l.lm_occurrences_skip in
    take_times now counting l.sent_timestamps l.marker_histogram
    >>= with_samples (record l { marker_ctx = ctx; lm_occurrences_skip = skip })

pub data Exchange : Type 0 where
  sends : ℕ → ℕ → Exchange  -- when, and how many bytes
  arrives : ℕ → Bytes → Exchange

unfoldable pub exchange :
    {C : Type 0}
    → (ℕ → ℕ)
    → ℕ
    → (C → Bytes → ℕ × (Bool × C))
    → (C → C)
    → Exchange
    → Latency C
    → Outcome (Latency C)
unfolding latency_record_outgoing latency_record_incoming
exchange junk msgsize feed reset (sends now wrote) l =
    latency_record_outgoing junk msgsize now wrote l
exchange junk msgsize feed reset (arrives now s) l = latency_record_incoming feed reset now s l

unfoldable pub exchanges :
    {C : Type 0}
    → (ℕ → ℕ)
    → ℕ
    → (C → Bytes → ℕ × (Bool × C))
    → (C → C)
    → List Exchange
    → Latency C
    → Outcome (Latency C)
exchanges junk msgsize feed reset [] l = proceeds l
exchanges junk msgsize feed reset (e ∷ es) l =
    exchange junk msgsize feed reset e l >>= exchanges junk msgsize feed reset es
