-- ===== src/Data/Unescape.antt =====
-- `unescape_data` of src/tcpkali_data.c. It works in place; it never writes past the byte that it
-- has read last (Bounds), so that the bytes to come are those of the input, and the bytes written
-- are a list of their own here.
-- The arrays `digits` are not initialised: where the data ends early their tail is what the stack
-- holds, `junk rest k` for the byte `k` of the array when `rest` bytes of the data are left.
pub mod Bounds
pub mod Laws
use tcpkali.Base.{
  ℕ, zero, suc, ◌+◌, ◌-◌, ◌*◌, ◌%◌, ◌^◌, Bool, true, false, ◌&&◌, ◌||◌, Bytes, List, [], ◌∷◌, ◌++◌,
  Option, none, some, ltb, leb, ◌==◌, if◌then◌else◌, length,
}

-- The standard library's `isspace` and `strtoul` in the C locale. No array here is long enough for
-- a prefix `0x` with a digit behind it, so a `0x` is the digit 0.
abbrev is_space : ℕ → Bool
is_space c = c == b' ' || leb 9 c && leb c 13

abbrev pub digit_value : ℕ → Option ℕ
digit_value c =
    if leb b'0' c && leb c b'9'
    then some (c - b'0')
    else if leb b'a' c && leb c b'z'
    then some (c - b'a' + 10)
    else if leb b'A' c && leb c b'Z'
    then some (c - b'A' + 10)
    else none

-- The digits of the base at the front: their value behind `acc`, and how many they are.
unfoldable pub strtoul_digits : ℕ → ℕ → Bytes → ℕ × ℕ
strtoul_digits base acc [] = (acc, 0)
strtoul_digits base acc (c ∷ cs) = elim (digit_value c) [
  | none ↦ (acc, 0)
  | some v ↦
      if ltb v base
      then (let (r, n) = strtoul_digits base (acc * base + v) cs in (r, suc n))
      else (acc, 0)
]

-- A number with no digits takes nothing.
abbrev after_sign : ℕ → ℕ → Bool → Bytes → ℕ × ℕ
after_sign base taken minus cs =
    let (v, n) = strtoul_digits base 0 cs in
    if n == 0 then (0, 0) else (if minus then (2 ^ 64 - v) % 2 ^ 64 else v, taken + n)

-- The value and the number of bytes taken; `skipped` white space stands in front.
unfoldable pub strtoul_from : ℕ → ℕ → Bytes → ℕ × ℕ
strtoul_from base skipped [] = (0, 0)
strtoul_from base skipped (c ∷ cs) =
    let more = strtoul_from base (skipped + 1) cs in
    if is_space c
    then more
    else if c == b'-'
    then after_sign base (skipped + 1) true cs
    else if c == b'+'
    then after_sign base (skipped + 1) false cs
    else after_sign base skipped false (c ∷ cs)

abbrev pub strtoul : ℕ → Bytes → ℕ × ℕ
strtoul base cs = strtoul_from base 0 cs

-- An array of `n` bytes from `k` on, filled from the data as far as it goes.
unfoldable pub digits : (ℕ → ℕ) → ℕ → ℕ → Bytes → Bytes
digits junk k zero cs = []
digits junk k (suc n) [] = junk k ∷ digits junk (suc k) n []
digits junk k (suc n) (c ∷ cs) = c ∷ digits junk (suc k) n cs

-- The bytes written for an escape, and how many bytes behind its letter it takes.
abbrev hex_escape : (ℕ → ℕ) → Bytes → Bytes × ℕ
hex_escape junk ds =
    let (l, n) = strtoul 16 (digits junk 0 2 ds) in
    if n == 0 then (b'\\' ∷ b'x' ∷ [], 0) else (l % 256 ∷ [], n)

abbrev octal_escape : (ℕ → ℕ) → Bytes → Bytes × ℕ
octal_escape junk ds =
    let (l, n) = strtoul 8 (digits junk 0 4 (b'0' ∷ ds)) in
    if n == 0 then (0 ∷ [], 0) else (l % 256 ∷ [], n - 1)

unfoldable pub escape : (ℕ → ℕ) → ℕ → Bytes → Bytes × ℕ
escape junk d ds =
    if d == b'n'
    then (b'\n' ∷ [], 0)
    else if d == b'r'
    then (b'\r' ∷ [], 0)
    else if d == b'f'
    then (12 ∷ [], 0)
    else if d == b'b'
    then (8 ∷ [], 0)
    else if d == b'x'
    then hex_escape junk ds
    else if d == b'0'
    then octal_escape junk ds
    else if d == b'\\'
    then (b'\\' ∷ d ∷ [], 0)
    else (d ∷ [], 0)

module _ (junk : ℕ → ℕ → ℕ) where
  -- The first argument counts the bytes that an escape has taken already.
  unfoldable pub unescape_from : ℕ → Bytes → Bytes
  unescape_from k [] = []
  unescape_from (suc k) (c ∷ cs) = unescape_from k cs
  unescape_from zero (c ∷ []) = c ∷ []
  unescape_from zero (c ∷ d ∷ ds) =
      let plain = unescape_from 0 (d ∷ ds) in
      let escaped = (let (out, n) = escape (junk (length ds)) d ds in out ++ unescape_from n ds) in
      if c == b'\\' then escaped else c ∷ plain

  unfoldable pub unescape_data : Bytes → Bytes
  unfolding unescape_from escape strtoul_from strtoul_digits digits
  unescape_data cs = unescape_from 0 cs
