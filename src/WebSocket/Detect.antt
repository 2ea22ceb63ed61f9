-- ===== src/WebSocket/Detect.antt =====
-- `http_detect_websocket` of src/tcpkali_websocket.c. The SHA-1 digest and its base64 text come
-- from libcows: `accept_of` is the text for the bytes of `new_key`.
pub mod Laws
pub mod Sound
use Prim.Native.Char.{code}
use Prim.Native.String.{String}
use tcpkali.Base.{
  ℕ, zero, suc, ◌+◌, ◌-◌, ◌≤◌, Bool, true, false, ◌&&◌, ◌||◌, Bytes, List, [], ◌∷◌, ◌++◌, Option,
  none, some, leb, ltb, ◌==◌, if◌then◌else◌, length, take, drop,
}

-- The bytes of an ASCII literal.
abbrev pub codes : String → Bytes
codes String.[] = []
codes (String.◌∷◌ c s) = code c ∷ codes s

pub data Rval : Type 0 where
  not_enough_data websocket_detected truncated_input unexpected_error : Rval

abbrev pub keyhdr : Bytes
keyhdr = codes "sec-websocket-key:"

abbrev pub magic : Bytes
magic = codes "258EAFA5-E914-47DA-95CA-C5AB0DC85B11"

-- `tolower` in the C locale.
abbrev pub to_lower : ℕ → ℕ
to_lower c = if leb b'A' c && leb c b'Z' then c + 32 else c

-- `strncasecmp(buf, keyhdr, keyhdr_size) == 0`, where `buf` has that many bytes.
unfoldable pub same_nocase : Bytes → Bytes → Bool
same_nocase (c ∷ cs) (k ∷ ks) = (to_lower c == to_lower k) && same_nocase cs ks
same_nocase cs [] = true
same_nocase [] (k ∷ ks) = false

-- `memchr(s, '\n', n)` with the bytes in front of what it finds.
pub before_newline : ℕ → Bytes → Option Bytes
before_newline zero cs = none
before_newline (suc n) [] = none
before_newline (suc n) (c ∷ cs) =
    let more = before_newline n cs in
    if c == b'\n' then some [] else elim more [ none ↦ none | some l ↦ some (c ∷ l) ]

pub ltrim : Bytes → Bytes
ltrim [] = []
ltrim (c ∷ cs) = let more = ltrim cs in if c == b' ' then more else c ∷ cs

-- The third test of the source repeats the first.
abbrev is_trailing : ℕ → Bool
is_trailing c = c == b' ' || c == b'\r' || c == b' '

-- Drops the trimmed bytes at the end, as the loop from `kvend` down does.
pub rtrim : Bytes → Bytes
rtrim [] = []
rtrim (c ∷ cs) = elim (rtrim cs) [ [] ↦ if is_trailing c then [] else c ∷ [] | d ∷ ds ↦ c ∷ d ∷ ds ]

abbrev pub response_head : Bytes
response_head =
    codes
      "HTTP/1.1 101 Switching Protocols\r\nUpgrade: websocket\r\nConnection: Upgrade\r\nSec-WebSocket-Accept: "

module _ (accept_of : Bytes → Bytes) where
  abbrev pub response : Bytes → Bytes
  response key = response_head ++ (accept_of (key ++ magic) ++ codes "\r\n\r\n")

  -- From the trimmed key on.
  abbrev pub answer : Bytes → Rval × Bytes
  answer key =
      if ltb (length key) 1 || ltb 26 (length key)
      then (unexpected_error, [])
      else (websocket_detected, response key)

  -- The header's value stands at the front of the bytes.
  pub key_value : Bytes → Rval × Bytes
  key_value cs = elim (before_newline (if ltb 30 (length cs) then 30 else length cs) cs) [
    | none ↦ (truncated_input, [])
    | some line ↦ answer (rtrim (ltrim line))
  ]

  -- The loop. At a newline `buf` moves to the byte behind it, and where the header is not there
  -- the loop's own step skips that byte too.
  pub detect : Bytes → Rval × Bytes
  detect [] = (not_enough_data, [])
  detect (c ∷ []) = if c == b'\n' then (truncated_input, []) else (not_enough_data, [])
  detect (c ∷ d ∷ cs) =
      let plain = detect (d ∷ cs) in
      let skipped = detect cs in
      if c == b'\n'
      then if ltb (length (d ∷ cs)) (length keyhdr)
        then (truncated_input, [])
        else if same_nocase (d ∷ cs) keyhdr
        then key_value (drop (length keyhdr) (d ∷ cs))
        else skipped
      else plain
