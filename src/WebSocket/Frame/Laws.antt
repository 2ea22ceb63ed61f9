-- ===== src/WebSocket/Frame/Laws.antt =====
-- Frame headers are read back by a decoder that follows RFC 6455, and their sizes.
use tcpkali.Base.{
  ℕ, zero, suc, ◌+◌, ◌*◌, ◌/◌, ◌%◌, ◌^◌, ◌≤◌, ◌<◌, ◌≡◌, refl, true, Bytes, [], ◌∷◌, ◌++◌, Option,
  none, some, bit_or, leb, ◌==◌, if◌then◌else◌, arith, length, passes_below, test-passes_below,
  ==_iff,
}
use tcpkali.WebSocket.Frame.{
  Opcode, continuation, text_frame, opcode_value, Side, client, server, max_frame_hdr_size,
  mask_flag, frame_header,
}

bit_or_mask_table : passes_below (λ x. bit_or 0x80 x == 128 + x) 128 ≡ true
unfolding passes_below
bit_or_mask_table = refl

bit_or_zero_table : passes_below (λ x. bit_or 0 x == x) 128 ≡ true
unfolding passes_below
bit_or_zero_table = refl

bit_or_mask : (x : ℕ) → x < 128 → bit_or 0x80 x ≡ 128 + x
bit_or_mask x h = (==_iff _ _).0 (test-passes_below _ x 128 h bit_or_mask_table)

bit_or_zero : (x : ℕ) → x < 128 → bit_or 0 x ≡ x
bit_or_zero x h = (==_iff _ _).0 (test-passes_below _ x 128 h bit_or_zero_table)

-- What RFC 6455 reads from a header.
pub record Header : Type 0 where
  pub fin : ℕ
  pub rsvs : ℕ
  pub opcode : ℕ
  pub masked : ℕ
  pub payload_size : ℕ

abbrev number : ℕ → Bytes → ℕ
number acc [] = acc
number acc (b ∷ bs) = number (acc * 256 + b) bs

-- Splits off the first `n` bytes.
abbrev split_at : ℕ → Bytes → Option (Bytes × Bytes)
split_at zero bs = some ([], bs)
split_at (suc n) [] = none
split_at (suc n) (b ∷ bs) = elim (split_at n bs) [ none ↦ none | some (a, r) ↦ some (b ∷ a, r) ]

-- The masking key, if the header has one, is skipped.
abbrev skip_key : ℕ → Bytes → Option Bytes
skip_key masked bs =
    if masked == 0 then some bs else elim (split_at 4 bs) [ none ↦ none | some (k, r) ↦ some r ]

abbrev finish : ℕ → ℕ → ℕ → Bytes → Option (Header × Bytes)
finish b0 masked size bs = elim (skip_key masked bs) [
  | none ↦ none
  | some r ↦ some (
    record {
      fin = b0 / 128;
      rsvs = b0 / 16 % 8;
      opcode = b0 % 16;
      masked = masked;
      payload_size = size;
    },
    r,
  )
]

pub decode : Bytes → Option (Header × Bytes)
decode (b0 ∷ b1 ∷ bs) =
    if b1 % 128 == 126
    then elim (split_at 2 bs) [ none ↦ none | some (n, r) ↦ finish b0 (b1 / 128) (number 0 n) r ]
    else if b1 % 128 == 127
    then elim (split_at 8 bs) [ none ↦ none | some (n, r) ↦ finish b0 (b1 / 128) (number 0 n) r ]
    else finish b0 (b1 / 128) (b1 % 128) bs
decode _ = none

opcode_value-lt : (op : Opcode) → opcode_value op < 16
opcode_value-lt continuation = omega arith
opcode_value-lt text_frame = omega arith
opcode_value-lt _ = omega arith

abbrev pub masked_bit : Side → ℕ
masked_bit client = 1
masked_bit server = 0

abbrev pub header_of : Side → Opcode → ℕ → ℕ → ℕ → Header
header_of side op reserved fin n = record {
  fin = (if fin == 0 then 0 else 1);
  rsvs = reserved;
  opcode = opcode_value op;
  masked = masked_bit side;
  payload_size = n;
}

mask_flag-or :
    (side : Side) (x : ℕ) → x < 128 → bit_or (mask_flag side) x ≡ masked_bit side * 128 + x
mask_flag-or client x h = omega (arith, bit_or_mask x h)
mask_flag-or server x h = omega (arith, bit_or_zero x h)

-- A decoder written from RFC 6455 reads back every header, whatever follows it: the opcode, the
-- flags, the mask bit of a client and the payload's size, for a size below 2^64 and at most seven
-- in the reserved bits.
pub decode-frame_header :
    (side : Side) (op : Opcode) (reserved fin n : ℕ) (tail : Bytes)
    → reserved < 8
    → n < 2 ^ 64
    → decode (frame_header side op reserved fin n ++ tail)
      ≡ some (header_of side op reserved fin n, tail)
unfolding decode frame_header
decode-frame_header client op reserved fin n tail hr hn = ground (
  arith,
  opcode_value-lt op,
  mask_flag-or client n,
  mask_flag-or client 126,
  mask_flag-or client 127,
)
decode-frame_header server op reserved fin n tail hr hn = ground (
  arith,
  opcode_value-lt op,
  mask_flag-or server n,
  mask_flag-or server 126,
  mask_flag-or server 127,
)

-- The size of a header, and its bounds.
abbrev pub header_size : Side → ℕ → ℕ
header_size side n =
    2 + (if leb n 125 then 0 else if leb n 65535 then 2 else 8) + masked_bit side * 4

pub length-frame_header :
    (side : Side) (op : Opcode) (reserved fin n : ℕ)
    → length (frame_header side op reserved fin n) ≡ header_size side n
unfolding frame_header
length-frame_header client op reserved fin n = ground arith
length-frame_header server op reserved fin n = ground arith

pub header_size_bounds :
    (side : Side) (n : ℕ) → (2 ≤ header_size side n) × (header_size side n ≤ max_frame_hdr_size)
header_size_bounds client n = ground arith
header_size_bounds server n = ground arith

pub header_size_mono : (side : Side) (n m : ℕ) → n ≤ m → header_size side n ≤ header_size side m
header_size_mono client n m h = ground arith
header_size_mono server n m h = ground arith

-- A header takes 2 to 14 bytes, so it always fits WEBSOCKET_MAX_FRAME_HDR_SIZE, and the header of
-- a smaller payload is not longer than that of a larger one.
pub frame_header_size :
    (side : Side) (op : Opcode) (reserved fin n m : ℕ)
    → n ≤ m
    → (2 ≤ length (frame_header side op reserved fin n))
      × (length (frame_header side op reserved fin n) ≤ max_frame_hdr_size)
      × (length (frame_header side op reserved fin n)
          ≤ length (frame_header side op reserved fin m))
frame_header_size side op reserved fin n m h = omega (
  arith,
  length-frame_header side op reserved fin n,
  length-frame_header side op reserved fin m,
  header_size_bounds side n,
  header_size_mono side n m h,
)
