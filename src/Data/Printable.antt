-- ===== src/Data/Printable.antt =====
-- `printable_data` and `printable_data_highlight` of src/tcpkali_data.c. What `tk_attr` gives for
-- the highlight and for the normal attribute comes from the terminal: two arguments.
-- The text is the bytes in front of the final zero. Where it does not fit the buffer, the
-- assertion at the end fails.
pub mod Bounds
use tcpkali.Base.{
  ℕ, zero, suc, ◌+◌, ◌-◌, ◌*◌, ◌/◌, ◌%◌, Bool, true, false, ◌&&◌, ◌||◌, Bytes, List, [], ◌∷◌, ◌++◌,
  Option, none, some, ltb, leb, ◌==◌, if◌then◌else◌, length,
}

abbrev pub suggested_buffer_size : ℕ → ℕ
suggested_buffer_size n = 3 + 4 * n + 32

pub data Printed : Type 0 where
  refused assertion_failed : Printed
  text : Bytes → Printed

abbrev pub hex_digit : ℕ → ℕ
hex_digit n = if ltb n 10 then b'0' + n else b'a' + (n - 10)

-- `last` tells that the byte is the last one.
unfoldable pub escape_byte : Bool → Bool → ℕ → Bytes
escape_byte quote last c =
    if c == b'\r'
    then b'\\' ∷ b'r' ∷ []
    else if c == b'\n'
    then (if last then b'\\' ∷ b'n' ∷ [] else b'\\' ∷ b'n' ∷ b'\n' ∷ b'\t' ∷ [])
    else if leb 32 c && leb c 33
    then c ∷ []
    else if c == b'\\'
    then b'\\' ∷ b'\\' ∷ []
    else if leb 35 c && leb c 91 || leb 93 c && leb c 126
    then c ∷ []
    else if c == 34
    then (if quote then b'\\' ∷ b'"' ∷ [] else b'"' ∷ [])
    else b'\\' ∷ b'x' ∷ hex_digit (c / 16) ∷ hex_digit (c % 16) ∷ []

-- `hl_start` and `hl_pre_end` as offsets into the data.
abbrev pub highlight_range : ℕ → ℕ → ℕ → Option (ℕ × ℕ)
highlight_range size offset len =
    if ltb 0 len && ltb offset size
    then some (offset, if leb size (offset + len - 1) then size - 1 else offset + len - 1)
    else none

abbrev pub is_at {ℓ} : {A : Type ℓ} → (A → ℕ) → Option A → ℕ → Bool
is_at f none i = false
is_at f (some p) i = f p == i

abbrev pub quote_mark : Bool → Bytes
quote_mark quote = if quote then b'"' ∷ [] else []

module _ (highlight normal : Bytes) where
  -- The loop, from offset `i` on.
  unfoldable pub escape_all : Bool → Option (ℕ × ℕ) → ℕ → Bytes → Bytes
  escape_all quote range i [] = []
  escape_all quote range i (c ∷ cs) =
      (if is_at (λ r. r.0) range i then highlight else [])
      ++ (escape_byte quote (length cs == 0) c
          ++ ((if is_at (λ r. r.1) range i then normal else [])
              ++ escape_all quote range (i + 1) cs))

  unfoldable pub printable_data_highlight : ℕ → Bytes → Bool → ℕ → ℕ → Printed
  printable_data_highlight buf_size cs quote offset len =
      let out =
        quote_mark quote
        ++ (escape_all quote (highlight_range (length cs) offset len) 0 cs ++ quote_mark quote) in
      if ltb buf_size (suggested_buffer_size (length cs))
      then refused
      else if leb (length out + 1) buf_size
      then text out
      else assertion_failed

  unfoldable pub printable_data : ℕ → Bytes → Bool → Printed
  printable_data buf_size cs quote = printable_data_highlight buf_size cs quote 0 0
