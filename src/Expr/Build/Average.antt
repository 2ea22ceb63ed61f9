-- ===== src/Expr/Build/Average.antt =====
-- `avg_digit_num` and `average_size` of src/tcpkali_expr.c. The division of the source is one of
-- floats: `quotient sum num` stands for `round((float)sum / num)`.
use tcpkali.Base.{
  ℕ, zero, suc, ◌+◌, ◌-◌, ◌*◌, ◌^◌, ◌≤◌, ◌<◌, ◌≡◌, refl, ap, ◌∙◌, Bytes, Option, none, some, length,
  ltb, if◌then◌else◌, Bool-cases, inl, inr, arith,
}
use tcpkali.Regex.{avg_size}
use tcpkali.Regex.Build.{add_size}
use tcpkali.Expr.{Expr, expr, Node, concat, modulo, regex}
use tcpkali.Expr.Eval.{magnitude}
use tcpkali.Expr.Decimal.{
  decimal, digits_within, length-digits_within, length-digits_within_le, pow_suc,
}

-- The loop: `s` numbers are left, of which the next `n` have `d` digits each.
unfoldable pub digit_loop : ℕ → ℕ → ℕ → ℕ → ℕ → ℕ
digit_loop zero s n d sum = sum
digit_loop (suc fuel) s n d sum =
    let rest = digit_loop fuel (s - n) (n * 10) (d + 1) (sum + n * d) in
    if ltb s n then sum + s * d else rest

-- The `sum` of `avg_digit_num`, for a divisor that is not 0. 19 rounds reach 10 ^ 19.
abbrev pub digit_sum : ℕ → ℕ
digit_sum num = digit_loop 19 (num - 1) 9 1 1

module _ (quotient : ℕ → ℕ → ℕ) where
  unfoldable mutual
    pub average_size : Expr → ℕ
    average_size (expr m n) = average_of m.res n m.estimate_size

    pub average_of : Option Bytes → Node → ℕ → ℕ
    average_of (some s) n size = length s
    average_of none (concat a b) size = add_size (average_size a) (average_size b)
    average_of none (regex re) size = avg_size re
    average_of none (modulo e k) size = quotient (digit_sum (magnitude k)) (magnitude k)
    average_of none n size = size

-- The digits of 0, 1, ..., m - 1 together.
abbrev pub total_digits : ℕ → ℕ
total_digits zero = 0
total_digits (suc m) = total_digits m + length (decimal m)

-- The numbers from 10 ^ k up, as long as they have k + 1 digits.
total_block :
    (k j : ℕ)
    → k < 20
    → 10 ^ k + j ≤ 10 ^ suc k
    → total_digits (10 ^ k + j) ≡ total_digits (10 ^ k) + j * suc k
total_block k zero small h = ap total_digits same ∙ omega arith
  where
    same : 10 ^ k + 0 ≡ 10 ^ k
    same = omega arith
total_block k (suc j) small h =
    ap total_digits next
    ∙ omega (
      arith,
      total_block k j small (omega arith),
      length-digits_within 20 k (10 ^ k + j) small (omega arith) (omega arith),
    )
  where
    next : 10 ^ k + suc j ≡ suc (10 ^ k + j)
    next = omega arith

loop_total :
    (fuel k m s n d sum : ℕ)
    → k + fuel ≤ 20
    → 10 ^ k ≤ m
    → m ≤ 10 ^ (k + fuel)
    → s ≡ m - 10 ^ k
    → n ≡ 9 * 10 ^ k
    → d ≡ suc k
    → sum ≡ total_digits (10 ^ k)
    → digit_loop fuel s n d sum ≡ total_digits m
unfolding digit_loop
loop_total zero k m s n d sum small lo hi es en ed esum =
    esum ∙ ap total_digits (omega (arith, ap (λ x. 10 ^ x) (plus_zero k)))
  where
    plus_zero : (k : ℕ) → k + 0 ≡ k
    plus_zero k = omega arith
loop_total (suc fuel) k m s n d sum small lo hi es en ed esum = elim (Bool-cases (ltb s n)) [
  | inl last ↦ rw last (in_block (ground arith))
  | inr more ↦
      let above : n ≤ s = ground arith in
      rw more (
        loop_total fuel (suc k) m (s - n) (n * 10) (d + 1) (sum + n * d) (omega arith)
          (omega (arith, pow_suc k)) (omega (arith, ap (λ x. 10 ^ x) (shift k fuel)))
          (omega (arith, pow_suc k)) (omega (arith, pow_suc k)) (omega arith) whole_block)
]
  where
    shift : (k fuel : ℕ) → k + suc fuel ≡ suc k + fuel
    shift k fuel = omega arith

    in_block : s < n → sum + s * d ≡ total_digits m
    in_block h = rw ed (
        rw esum (
          omega (
            arith,
            pow_suc k,
            total_block k s (omega arith) (omega (arith, pow_suc k)),
            ap total_digits (whole_number h),
          )))
      where
        whole_number : s < n → 10 ^ k + s ≡ m
        whole_number h = omega arith

    whole_block : sum + n * d ≡ total_digits (10 ^ suc k)
    whole_block = rw ed (
        rw esum (
          rw en (
            omega (
              arith,
              total_block k (9 * 10 ^ k) (omega arith) (omega (arith, pow_suc k)),
              ap total_digits (block_end k),
            ))))
      where
        block_end : (k : ℕ) → 10 ^ k + 9 * 10 ^ k ≡ 10 ^ suc k
        block_end k = omega (arith, pow_suc k)

-- For a divisor from 1 to 10 ^ 17 the loop ends with the number of digits of all the remainders
-- 0, 1, ..., num - 1 together, which is below 2 ^ 63, so that no `long` overflows.
pub digit_sum_total :
    (num : ℕ)
    → 1 ≤ num
    → num ≤ 10 ^ 17
    → (digit_sum num ≡ total_digits num) × (digit_sum num < 2 ^ 63)
unfolding digits_within
digit_sum_total num lo hi = (equal, omega (arith, equal, total_le num hi))
  where
    equal : digit_sum num ≡ total_digits num
    equal =
        loop_total 19 0 num (num - 1) 9 1 1 (omega arith) (omega arith) (omega arith) refl refl refl
          refl

    total_le : (m : ℕ) → m ≤ 10 ^ 17 → total_digits m ≤ m * 17
    total_le zero h = omega arith
    total_le (suc m) h =
        omega (arith, total_le m (omega arith), length-digits_within_le 20 16 m (omega arith))
