-- ===== src/Expr/Decimal.antt =====
-- What `snprintf` writes for "%ld", and how many digits it has.
use tcpkali.Base.{
  ℕ, zero, suc, ◌+◌, ◌*◌, ◌/◌, ◌%◌, ◌^◌, ◌≤◌, ◌<◌, ◌≡◌, Bytes, [], ◌∷◌, ◌++◌, length, length-append,
  ltb, if◌then◌else◌, arith,
}
use tcpkali.Expr.{ℤ, pos, negsuc}

-- The last `places` decimal digits at most.
unfoldable pub digits_within : ℕ → ℕ → Bytes
digits_within zero n = []
digits_within (suc places) n =
    let front = digits_within places (n / 10) in
    if ltb n 10 then (b'0' + n) ∷ [] else front ++ ((b'0' + n % 10) ∷ [])

-- A number of 64 bits has at most 20 digits.
abbrev pub decimal : ℕ → Bytes
decimal n = digits_within 20 n

abbrev pub decimal_long : ℤ → Bytes
decimal_long (pos n) = decimal n
decimal_long (negsuc n) = b'-' ∷ decimal (suc n)

pub pow_suc : (k : ℕ) → 10 ^ suc k ≡ 10 * 10 ^ k
pow_suc k = omega arith

pub pow_pos : (k : ℕ) → 1 ≤ 10 ^ k
pow_pos zero = omega arith
pow_pos (suc k) = omega (arith, pow_pos k)

pub length-digits_within :
    (places k n : ℕ)
    → k < places
    → 10 ^ k ≤ n
    → n < 10 ^ suc k
    → length (digits_within places n) ≡ suc k
unfolding digits_within
length-digits_within zero k n lt lo hi = elim lt [ ]
length-digits_within (suc places) zero n lt lo hi = ground arith
length-digits_within (suc places) (suc k) n lt lo hi =
    let front = digits_within places (n / 10) in
    ground (
      arith,
      pow_pos k,
      pow_suc k,
      pow_suc (suc k),
      length-append front ((b'0' + n % 10) ∷ []),
      length-digits_within places k (n / 10) (omega arith) (omega (arith, pow_suc k))
          (omega (arith, pow_suc (suc k))),
    )

pub length-digits_within_le :
    (places k n : ℕ) → n < 10 ^ suc k → length (digits_within places n) ≤ suc k
unfolding digits_within
length-digits_within_le zero k n hi = omega arith
length-digits_within_le (suc places) zero n hi = ground arith
length-digits_within_le (suc places) (suc k) n hi =
    let front = digits_within places (n / 10) in
    ground (
      arith,
      length-append front ((b'0' + n % 10) ∷ []),
      length-digits_within_le places k (n / 10) (omega (arith, pow_suc (suc k))),
    )
