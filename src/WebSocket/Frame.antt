-- ===== src/WebSocket/Frame.antt =====
-- `websocket_frame_header` of src/tcpkali_websocket.c, with the constants of
-- src/tcpkali_websocket.h. `size_t` is of 64 bits, so the branch for a `size_t` of 32 bits is not
-- compiled. The bytes that go to `buf` are the result, and `buf - orig_buf_ptr` is their number.
pub mod Laws
use tcpkali.Base.{
  ℕ, ◌+◌, ◌*◌, ◌/◌, ◌%◌, ◌^◌, Bytes, List, [], ◌∷◌, ◌++◌, bit_or, bit_and, leb, ◌==◌, if◌then◌else◌,
}

pub data Opcode : Type 0 where
  continuation text_frame binary_frame close ping pong : Opcode

abbrev pub opcode_value : Opcode → ℕ
opcode_value continuation = 0
opcode_value text_frame = 1
opcode_value binary_frame = 2
opcode_value close = 8
opcode_value ping = 9
opcode_value pong = 10

pub data Side : Type 0 where
  client server : Side

abbrev pub max_frame_hdr_size : ℕ
max_frame_hdr_size = 2 + 8 + 4

-- The bit fields of `struct ws_frame`: `opcode : 4`, `rsvs : 3`, `fin : 1`, from the low bits up.
abbrev pub first_byte : ℕ → ℕ → ℕ → ℕ
first_byte opcode reserved fin =
    opcode % 16 + (reserved % 8) * 16 + (if fin == 0 then 0 else 1) * 128

abbrev pub mask_flag : Side → ℕ
mask_flag client = 0x80
mask_flag server = 0

-- What `htons` and `htonl` put into memory.
abbrev pub network_order_16 : ℕ → Bytes
network_order_16 v = (v / 256 % 256) ∷ (v % 256) ∷ []

abbrev pub network_order_32 : ℕ → Bytes
network_order_32 v = (v / 2 ^ 24 % 256) ∷ (v / 2 ^ 16 % 256) ∷ (v / 256 % 256) ∷ (v % 256) ∷ []

abbrev zero_mask : Side → Bytes
zero_mask client = 0 ∷ 0 ∷ 0 ∷ 0 ∷ []
zero_mask server = []

unfoldable pub frame_header : Side → Opcode → ℕ → ℕ → ℕ → Bytes
frame_header side opcode reserved fin payload_size =
    first_byte (opcode_value opcode) reserved fin
    ∷ ((if leb payload_size 125
          then bit_or (mask_flag side) payload_size ∷ []
          else if leb payload_size 65535
          then bit_or (mask_flag side) 126 ∷ network_order_16 payload_size
          else bit_or (mask_flag side) 127
            ∷ (network_order_32 (payload_size / 2 ^ 32)
                ++ network_order_32 (payload_size % 2 ^ 32)))
        ++ zero_mask side)
