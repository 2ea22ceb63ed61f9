-- ===== src/Engine/Marker.antt =====
-- `override_timestamp`, `update_timestamps`, `nibble` and, for messages with markers,
-- `latency_record_incoming_ts` of src/tcpkali_engine.c. The search for the token is the third-party
-- `sbmh_feed`: `feed` gives the bytes it analysed, whether it found the token, and its next context.
pub mod Laws
use tcpkali.Base.{
  ℕ, zero, suc, ◌+◌, ◌-◌, ◌*◌, ◌/◌, ◌%◌, ◌^◌, Bool, true, false, not, ◌&&◌, Bytes, List, [], ◌∷◌,
  ◌++◌, Option, none, some, length, take, drop, ltb, leb, ◌==◌, if◌then◌else◌,
}
use tcpkali.WebSocket.Detect.{codes}
use tcpkali.Engine.Fields.{hex_digit}

abbrev pub token : Bytes
token = codes "TCPKaliMsgTS-"

-- The last `places` hexadecimal digits, with leading zeros.
unfoldable pub hex_fixed : ℕ → ℕ → Bytes
hex_fixed zero n = []
hex_fixed (suc places) n = hex_fixed places (n / 16) ++ (hex_digit (n % 16) ∷ [])

abbrev pub starts_with_byte : ℕ → Bytes → Bool
starts_with_byte c [] = false
starts_with_byte c (d ∷ ds) = c == d

-- The time stands behind the token; `none` is a failed assertion.
unfoldable pub override_timestamp : Bytes → ℕ → Option Bytes
unfolding hex_fixed
override_timestamp s ts =
    if ltb (length s) (length token + 16 + 1)
    then none
    else if starts_with_byte b'T' s
    then some (take (length token) s ++ (hex_fixed 16 ts ++ (b'.' ∷ drop (length token + 17) s)))
    else none

abbrev pub starts_with : Bytes → Bytes → Bool
starts_with [] s = true
starts_with (t ∷ ts) [] = false
starts_with (t ∷ ts) (c ∷ s) = (c == t) && starts_with ts s

abbrev pub or_same : Bytes → Option Bytes → Bytes
or_same s none = s
or_same s (some t) = t

-- The loop over `memmem`: a whole marker gets the time and is passed over, a token at the end with
-- too little behind it ends the loop. A round passes over a byte at least.
unfoldable pub update_timestamps : ℕ → ℕ → Bytes → Bytes
unfolding override_timestamp
update_timestamps zero ts s = s
update_timestamps (suc rounds) ts [] = []
update_timestamps (suc rounds) ts (c ∷ s) =
    let full = length token + 16 + 1 in
    let after = update_timestamps rounds ts (drop full (c ∷ s)) in
    let later = update_timestamps rounds ts s in
    if not (starts_with token (c ∷ s))
    then c ∷ later
    else if ltb (length (c ∷ s)) full
    then c ∷ s
    else or_same (take full (c ∷ s)) (override_timestamp (take full (c ∷ s)) ts) ++ after

unfoldable pub nibble : ℕ → ℕ
nibble c =
    if leb b'0' c && leb c b'9'
    then c - b'0'
    else if leb b'a' c && leb c b'f'
    then c - b'a' + 10
    else if leb b'A' c && leb c b'F'
    then c - b'A' + 10
    else 0

-- `marker_parser` with `sbmh_marker_ctx`; `collected_digits` has 64 bits.
pub data Parser (C : Type 0) : Type 0 where
  disengaged : C → Parser C
  slurping_digits : ℕ → C → Parser C

-- The shift leaves four zeros, so that the nibble adds.
abbrev pub collect : ℕ → ℕ → ℕ
collect n c = (n * 16) % 2 ^ 64 + nibble c

module _ {C : Type 0} (feed : C → Bytes → ℕ × (Bool × C)) (reset : C → C) where
  abbrev pub note : ℕ → Parser C × List ℕ → Parser C × List ℕ
  note n (p, ns) = (p, n ∷ ns)

  abbrev pub fed :
      (Parser C → Bytes → Parser C × List ℕ) → Bytes → ℕ × (Bool × C) → Parser C × List ℕ
  fed more s (n, (true, ctx)) = more (slurping_digits 0 (reset ctx)) (drop n s)
  fed more s (n, (false, ctx)) = (disengaged ctx, [])

  -- The loop over the bytes received, with the times of the messages whose markers end in it. A
  -- round consumes a byte, and a found token has one at least.
  unfoldable pub record_incoming : ℕ → Parser C → Bytes → Parser C × List ℕ
  unfolding nibble
  record_incoming zero p s = (p, [])
  record_incoming (suc rounds) p [] = (p, [])
  record_incoming (suc rounds) (disengaged ctx) (c ∷ s) =
      fed (record_incoming rounds) (c ∷ s) (feed ctx (c ∷ s))
  record_incoming (suc rounds) (slurping_digits n ctx) (c ∷ s) =
      let rest = record_incoming rounds (slurping_digits (collect n c) ctx) s in
      if c == b'.' then note n (fed (record_incoming rounds) (c ∷ s) (feed ctx (c ∷ s))) else rest
