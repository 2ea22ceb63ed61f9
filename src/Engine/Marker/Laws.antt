-- ===== src/Engine/Marker/Laws.antt =====
-- What is written into a marker is what the parser of markers reads.
use tcpkali.Base.{
  ℕ, zero, suc, ◌+◌, ◌*◌, ◌/◌, ◌%◌, ◌^◌, ◌≤◌, ◌<◌, ◌≡◌, refl, ap, ap₂, ◌∙◌, Bool, true, false,
  Bytes, [], ◌∷◌, ◌++◌, append_assoc, some, length, length-append, length-take, length-drop, take,
  drop, le→not-ltb, ◌==◌, arith,
}
use tcpkali.Engine.Fields.{hex_digit}
use tcpkali.Engine.Marker.{
  hex_fixed, starts_with_byte, override_timestamp, nibble, slurping_digits, note, fed,
  record_incoming,
}

nibble-hex_digit : (d : ℕ) → d < 16 → nibble (hex_digit d) ≡ d
unfolding nibble
nibble-hex_digit d h = ground arith

hex_digit_no_point : (d : ℕ) → d < 16 → (hex_digit d == b'.') ≡ false
hex_digit_no_point d h = ground arith

length-hex_fixed : (places n : ℕ) → length (hex_fixed places n) ≡ places
unfolding hex_fixed
length-hex_fixed zero n = refl
length-hex_fixed (suc places) n = omega (
  arith,
  length-append (hex_fixed places (n / 16)) (hex_digit (n % 16) ∷ []),
  length-hex_fixed places (n / 16),
)

drop-take : (n : ℕ) (s t : Bytes) → n ≤ length s → drop n (take n s ++ t) ≡ t
drop-take zero s t h = refl
drop-take (suc n) [] t h = elim h [ ]
drop-take (suc n) (c ∷ s) t h = drop-take n s t (omega arith)

pow_step : (n p : ℕ) → n * 16 ^ suc p ≡ (n * 16 ^ p) * 16
pow_step n p = ap (λ k. n * k) (pow_16 p) ∙ regroup n (16 ^ p)
  where
    pow_16 : (p : ℕ) → 16 ^ suc p ≡ 16 * 16 ^ p
    pow_16 p = omega arith

    regroup : (n x : ℕ) → n * (16 * x) ≡ (n * x) * 16
    regroup n x = grind arith

module _ {C : Type 0} (feed : C → Bytes → ℕ × (Bool × C)) (reset : C → C) where
  slurp_one :
      (rounds n d : ℕ) (ctx : C) (s : Bytes)
      → d < 16
      → n * 16 + d < 2 ^ 64
      → record_incoming feed reset (suc rounds) (slurping_digits n ctx) (hex_digit d ∷ s)
        ≡ record_incoming feed reset rounds (slurping_digits (n * 16 + d) ctx) s
  unfolding record_incoming
  slurp_one rounds n d ctx s h fits = rw (hex_digit_no_point d h) (
      ap (λ k. record_incoming feed reset rounds (slurping_digits k ctx) s)
        (omega (arith, nibble-hex_digit d h)))

  slurp_all :
      (places rounds n m : ℕ) (ctx : C) (s : Bytes)
      → m < 16 ^ places
      → n * 16 ^ places + m < 2 ^ 64
      → record_incoming feed reset
          (places + rounds)
          (slurping_digits n ctx)
          (hex_fixed places m ++ s)
        ≡ record_incoming feed reset rounds (slurping_digits (n * 16 ^ places + m) ctx) s
  unfolding hex_fixed
  slurp_all zero rounds n m ctx s small fits =
      ap₂ (λ k j. record_incoming feed reset k (slurping_digits j ctx) s) (omega arith)
        (omega arith)
  slurp_all (suc places) rounds n m ctx s small fits =
      let front = n * 16 ^ places + m / 16 in
      let whole : front * 16 + m % 16 ≡ n * 16 ^ suc places + m =
        omega (arith, pow_step n places) in
      ap₂ (λ k t. record_incoming feed reset k (slurping_digits n ctx) t) (shift places rounds)
        (append_assoc (hex_fixed places (m / 16)) (hex_digit (m % 16) ∷ []) s)
      ∙ slurp_all places (suc rounds) n (m / 16) ctx (hex_digit (m % 16) ∷ s)
          (omega (arith, pow_step 1 places)) (omega (arith, whole))
      ∙ slurp_one rounds front (m % 16) ctx s (omega arith) (omega (arith, whole))
      ∙ ap (λ k. record_incoming feed reset rounds (slurping_digits k ctx) s) whole
    where
      shift : (p r : ℕ) → suc p + r ≡ p + suc r
      shift p r = omega arith

  -- Writing a time of 64 bits into a marker of 30 bytes or more in a buffer succeeds and leaves the
  -- buffer's size. Whatever the search for tokens does, the parser that stands behind the token then
  -- reads 16 digits and gives a message with exactly that time, and goes on at the point.
  pub record-override_timestamp :
      (s : Bytes) (ts : ℕ)
      → 30 ≤ length s
      → starts_with_byte b'T' s ≡ true
      → ts < 2 ^ 64
      → (s' : Bytes) × (override_timestamp s ts ≡ some s')
        × (length s' ≡ length s)
        × ((rounds : ℕ) (ctx : C)
            → record_incoming feed reset (16 + suc rounds) (slurping_digits 0 ctx) (drop 13 s')
              ≡ note feed reset ts (
                  fed feed reset
                    (record_incoming feed reset rounds)
                    (b'.' ∷ drop 30 s)
                    (feed ctx (b'.' ∷ drop 30 s))))
  unfolding override_timestamp record_incoming
  record-override_timestamp s ts long starts small =
      let tail = b'.' ∷ drop 30 s in
      (
        take 13 s ++ (hex_fixed 16 ts ++ tail),
        rw (le→not-ltb (length s) 30 long) (rw starts refl),
        omega (
          arith,
          length-append (take 13 s) (hex_fixed 16 ts ++ tail),
          length-append (hex_fixed 16 ts) tail,
          length-take 13 s,
          length-drop 30 s,
          length-hex_fixed 16 ts,
        ),
        λ rounds ctx.
            ap (record_incoming feed reset (16 + suc rounds) (slurping_digits 0 ctx))
              (drop-take 13 s (hex_fixed 16 ts ++ tail) (omega arith))
            ∙ slurp_all 16 (suc rounds) 0 ts ctx tail (omega arith) (omega arith)
            ∙ ap (λ k. record_incoming feed reset (suc rounds) (slurping_digits k ctx) tail)
                (no_front ts),
      )
    where
      no_front : (n : ℕ) → 0 * 16 ^ 16 + n ≡ n
      no_front n = omega arith
