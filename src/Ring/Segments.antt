-- ===== src/Ring/Segments.antt =====
-- Runs of units in the buffer, and what writes and copies do to them.
use tcpkali.Base.{
  ℕ, zero, suc, ◌+◌, ◌-◌, ◌*◌, ◌≤◌, ◌<◌, ◌≡◌, refl, ap₂, ap, ◌∙◌, ◌⊎◌, List, [], ◌∷◌, ◌++◌, arith,
  ltb, leb, ◌==◌, length,
}
use tcpkali.Ring.{store, memcpy}

pub mul_lt : (u a b : ℕ) → 0 < u → a < b → a * u + u ≤ b * u
mul_lt u a b h p = grind arith

pub mul_le : (u a b : ℕ) → a ≤ b → a * u ≤ b * u
mul_le u a b p = grind arith

pub ltb-mul : (u a b : ℕ) → 0 < u → ltb (a * u) (b * u) ≡ ltb a b
ltb-mul u a b h = ground (arith, mul_lt u a b h, mul_le u b a)

pub leb-mul : (u a b : ℕ) → 0 < u → leb (a * u) (b * u) ≡ leb a b
leb-mul u a b h = ground (arith, mul_lt u b a h, mul_le u a b)

pub ==-mul : (u a b : ℕ) → 0 < u → (a * u == b * u) ≡ (a == b)
==-mul u a b h = ground (arith, mul_lt u b a h, mul_lt u a b h)

copied_offset : (u a b k : ℕ) → b * u + ((a + k) * u - a * u) ≡ (b + k) * u
copied_offset u a b k = omega arith

module _ {A : Type 0} where
  -- The `n` units from index `i` on.
  abbrev pub segment : (ℕ → A) → ℕ → ℕ → ℕ → List A
  segment m u i zero = []
  segment m u i (suc n) = m (i * u) ∷ segment m u (suc i) n

  -- Two runs agree where their units do.
  pub segment-eq :
      (m m' : ℕ → A) (u i j n : ℕ)
      → ((k : ℕ) → k < n → m ((i + k) * u) ≡ m' ((j + k) * u))
      → segment m u i n ≡ segment m' u j n
  segment-eq m m' u i j zero h = refl
  segment-eq m m' u i j (suc n) h =
      ap₂ ◌∷◌ (head (h 0 (omega arith)))
        (segment-eq m m' u (suc i) (suc j) n (λ k p. step k (h (suc k) (omega arith))))
    where
      head : m ((i + 0) * u) ≡ m' ((j + 0) * u) → m (i * u) ≡ m' (j * u)
      head e = ground (arith, e)

      step :
          (k : ℕ)
          → m ((i + suc k) * u) ≡ m' ((j + suc k) * u)
          → m ((suc i + k) * u) ≡ m' ((suc j + k) * u)
      step k e = ground (arith, e)

  pub segment_append :
      (m : ℕ → A) (u i n k : ℕ) → segment m u i (n + k) ≡ segment m u i n ++ segment m u (i + n) k
  segment_append m u i zero k = ap₂ (λ x y. segment m u x y) (omega arith) (omega arith)
  segment_append m u i (suc n) k =
      ap (segment m u i) {y = suc (n + k)} (omega arith)
      ∙ ap (◌∷◌ (m (i * u))) (
          segment_append m u (suc i) n k
          ∙ ap (λ x. segment m u (suc i) n ++ segment m u x k) {y = i + suc n} (omega arith))

  pub segment-snoc :
      (m : ℕ → A) (u i n : ℕ) → segment m u i (n + 1) ≡ segment m u i n ++ (m ((i + n) * u) ∷ [])
  segment-snoc m u i n = segment_append m u i n 1

  -- A write outside a run leaves it alone.
  pub segment-store :
      (m : ℕ → A) (u i n j : ℕ) (d : A)
      → 0 < u
      → (j < i) ⊎ (i + n ≤ j)
      → segment (store m (j * u) d) u i n ≡ segment m u i n
  segment-store m u i n j d h out =
      segment-eq (store m (j * u) d) m u i i n (λ k p. ground (arith, ==-mul u (i + k) j h))

  -- A copy fills its own run with the source's, and leaves a run below it alone.
  pub segment-memcpy :
      (dst src : ℕ → A) (u a b n x y z : ℕ)
      → 0 < u
      → x ≡ a * u
      → y ≡ b * u
      → z ≡ n * u
      → segment (memcpy dst x src y z) u a n ≡ segment src u b n
  segment-memcpy dst src u a b n x y z h ex ey ez =
      rw (ex, ey, ez)
        (segment-eq (memcpy dst (a * u) src (b * u) (n * u)) src u a b n
          (λ k p. ground (arith, mul_lt u (a + k) (a + n) h, ap src (copied_offset u a b k))))

  pub segment-memcpy_below :
      (dst src : ℕ → A) (u a i k x from n : ℕ)
      → 0 < u
      → x ≡ a * u
      → i + k ≤ a
      → segment (memcpy dst x src from n) u i k ≡ segment dst u i k
  segment-memcpy_below dst src u a i k x from n h ex le = rw ex (
      segment-eq (memcpy dst (a * u) src from n) dst u i i k
        (λ x p. ground (arith, mul_lt u (i + x) a h)))

  pub length-segment : (m : ℕ → A) (u i n : ℕ) → length (segment m u i n) ≡ n
  length-segment m u i zero = refl
  length-segment m u i (suc n) = ap suc (length-segment m u (suc i) n)
