-- ===== src/Data/RoundTrip.antt =====
-- What `printable_data` prints is read back by `unescape_data`.
use tcpkali.Base.{
  ℕ, suc, ◌+◌, ◌*◌, ◌/◌, ◌%◌, ◌≤◌, ◌<◌, ◌≡◌, ◌≢◌, refl, ap, ◌∙◌, Bool, true, false, ◌&&◌, ◌||◌,
  Bytes, [], ◌∷◌, ◌++◌, append-nil, none, some, leb, ◌==◌, length, arith,
}
use tcpkali.Data.Printable.{
  hex_digit, escape_byte, escape_all, suggested_buffer_size, printable_data,
  printable_data_highlight, text,
}
use tcpkali.Data.Printable.Bounds.{printable_data_total}
use tcpkali.Data.Unescape.{
  digit_value, strtoul_digits, strtoul_from, digits, escape, unescape_from, unescape_data,
}

-- Bytes, none of them a backslash, with a newline at most at the end: a backslash is doubled when
-- it is printed and stays doubled when it is read, and a newline inside is followed by a line break.
abbrev pub IsPlain : Bytes → Type 0
IsPlain [] = Unit
IsPlain (c ∷ cs) = ((c < 256) × (c ≢ b'\\') × (c ≡ b'\n' → cs ≡ [])) × IsPlain cs

digit_value-hex_digit : (n : ℕ) → n < 16 → digit_value (hex_digit n) ≡ some n
digit_value-hex_digit n h = ground arith

unescape_plain :
    (j : ℕ → ℕ → ℕ) (c : ℕ) (t : Bytes)
    → c ≢ b'\\'
    → unescape_from j 0 (c ∷ t) ≡ c ∷ unescape_from j 0 t
unfolding unescape_from
unescape_plain j c [] h = refl
unescape_plain j c (d ∷ t) h = ground arith

unescape_letters :
    (j : ℕ → ℕ → ℕ) (t : Bytes)
    → (unescape_from j 0 (b'\\' ∷ b'r' ∷ t) ≡ b'\r' ∷ unescape_from j 0 t)
      × (unescape_from j 0 (b'\\' ∷ b'n' ∷ t) ≡ b'\n' ∷ unescape_from j 0 t)
      × (unescape_from j 0 (b'\\' ∷ b'"' ∷ t) ≡ b'"' ∷ unescape_from j 0 t)
unfolding unescape_from escape
unescape_letters j t = (refl, refl, refl)

strtoul_digits_step :
    (acc c v : ℕ) (cs : Bytes)
    → digit_value c ≡ some v
    → v < 16
    → strtoul_digits 16 acc (c ∷ cs)
      ≡ ((strtoul_digits 16 (acc * 16 + v) cs).0, suc (strtoul_digits 16 (acc * 16 + v) cs).1)
unfolding strtoul_digits
strtoul_digits_step acc c v cs h lt = ground arith

strtoul_two :
    (x y a b : ℕ)
    → digit_value x ≡ some a
    → digit_value y ≡ some b
    → a < 16
    → b < 16
    → strtoul_digits 16 0 (x ∷ y ∷ []) ≡ (a * 16 + b, 2)
unfolding strtoul_digits
strtoul_two x y a b hx hy ha hb =
    strtoul_digits_step 0 x a (y ∷ []) hx ha
    ∙ rw (strtoul_digits_step (0 * 16 + a) y b [] hy hb) (ground arith)

digit-not_sign :
    (x a : ℕ)
    → digit_value x ≡ some a
    → ((x == b' ' || leb 9 x && leb x 13) ≡ false) × ((x == b'-') ≡ false) × ((x == b'+') ≡ false)
digit-not_sign x a h = ground arith

escape_hex :
    (k : ℕ → ℕ) (x y a b : ℕ) (t : Bytes)
    → digit_value x ≡ some a
    → digit_value y ≡ some b
    → a < 16
    → b < 16
    → escape k b'x' (x ∷ y ∷ t) ≡ ((a * 16 + b) ∷ [], 2)
unfolding escape strtoul_from digits
escape_hex k x y a b t hx hy ha hb =
    let (space, minus, plus) = digit-not_sign x a hx in
    rw (space, minus, plus, strtoul_two x y a b hx hy ha hb) (ground arith)

unescape_hex :
    (j : ℕ → ℕ → ℕ) (x y a b : ℕ) (t : Bytes)
    → digit_value x ≡ some a
    → digit_value y ≡ some b
    → a < 16
    → b < 16
    → unescape_from j 0 (b'\\' ∷ b'x' ∷ x ∷ y ∷ t) ≡ (a * 16 + b) ∷ unescape_from j 0 t
unfolding unescape_from
unescape_hex j x y a b t hx hy ha hb =
    rw (escape_hex (j (length (x ∷ y ∷ t))) x y a b t hx hy ha hb)

unescape-escape_byte :
    (j : ℕ → ℕ → ℕ) (quote last : Bool) (c : ℕ) (t : Bytes)
    → c < 256
    → c ≢ b'\\'
    → (c ≡ b'\n' → last ≡ true)
    → unescape_from j 0 (escape_byte quote last c ++ t) ≡ c ∷ unescape_from j 0 t
unfolding escape_byte
unescape-escape_byte j quote last c t lt nb nl = ground (
  arith,
  nl,
  unescape_plain j c t,
  unescape_letters j t,
  unescape_hex j (hex_digit (c / 16)) (hex_digit (c % 16)) (c / 16) (c % 16) t
      (digit_value-hex_digit (c / 16) (omega arith)) (digit_value-hex_digit (c % 16) (omega arith))
      (omega arith) (omega arith),
)

module _ (highlight normal : Bytes) where
  unescape-escape_all :
      (j : ℕ → ℕ → ℕ) (quote : Bool) (i : ℕ) (cs : Bytes)
      → IsPlain cs
      → unescape_from j 0 (escape_all highlight normal quote none i cs) ≡ cs
  unfolding escape_all
  unescape-escape_all j quote i [] h = unfold unescape_from in refl
  unescape-escape_all j quote i (c ∷ cs) h =
      unescape-escape_byte j quote (length cs == 0) c
        (escape_all highlight normal quote none (i + 1) cs) h.0.0 h.0.1
        (λ e. ap (λ l. length l == 0) (h.0.2 e))
      ∙ ap (◌∷◌ c) (unescape-escape_all j quote (i + 1) cs h.1)

  printed_text :
      (buf_size : ℕ) (cs out : Bytes)
      → printable_data highlight normal buf_size cs false ≡ text out
      → out ≡ escape_all highlight normal false none 0 cs
  unfolding printable_data printable_data_highlight
  printed_text buf_size cs out e =
      ground (arith, append-nil (escape_all highlight normal false none 0 cs))

  unescape_text :
      (j : ℕ → ℕ → ℕ) (buf_size : ℕ) (cs : Bytes)
      → IsPlain cs
      → (out : Bytes) → printable_data highlight normal buf_size cs false ≡ text out
      → unescape_data j out ≡ cs
  unescape_text j buf_size cs h out e =
      ap (unescape_data j) (printed_text buf_size cs out e)
      ∙ unfold unescape_data in unescape-escape_all j false 0 cs h

  -- Plain data is printed into a buffer of the suggested size, and the printed text, without
  -- quotes, is unescaped to the data again, whatever the stack holds.
  pub unescape-printable_data :
      (j : ℕ → ℕ → ℕ) (buf_size : ℕ) (cs : Bytes)
      → IsPlain cs
      → length highlight + length normal ≤ 32
      → suggested_buffer_size (length cs) ≤ buf_size
      → (out : Bytes) × (printable_data highlight normal buf_size cs false ≡ text out)
        × (unescape_data j out ≡ cs)
  unfolding printable_data
  unescape-printable_data j buf_size cs h fits big =
      let (out, printed, _) =
        (printable_data_total highlight normal buf_size cs false 0 0 fits).0 big in
      (out, printed, unescape_text j buf_size cs h out printed)
