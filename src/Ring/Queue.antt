-- ===== src/Ring/Queue.antt =====
-- Taking from the ring, and the ring that `ring_buffer_init` makes.
use tcpkali.Base.{
  ℕ, zero, suc, ◌+◌, ◌-◌, ◌*◌, ◌%◌, ◌^◌, ◌≤◌, ◌<◌, ◌≡◌, refl, sym, ap, subst, ◌∙◌, ◌⊎◌, inl, inr,
  Option, none, some, List, [], ◌∷◌, arith,
}
use tcpkali.Ring.Segments.{segment, ltb-mul, ==-mul}
use tcpkali.Ring.Refine.{ring_of, contents, Represents}
use tcpkali.Ring.{RingBuffer, init, get}

abbrev pub front {ℓ} : {A : Type ℓ} → List A → Option A
front [] = none
front (x ∷ q) = some x

abbrev pub rest {ℓ} : {A : Type ℓ} → List A → List A
rest [] = []
rest (x ∷ q) = q

order : (a b : ℕ) → (a < b) ⊎ ((a ≡ b) ⊎ (b < a))
order a b = omega arith

module _ {A : Type 0} (m : ℕ → A) (u : ℕ) where
  segment-cons : (i n : ℕ) → 0 < n → segment m u i n ≡ m (i * u) ∷ segment m u (i + 1) (n - 1)
  segment-cons i zero h = elim h [ ]
  segment-cons i (suc n) h = ground (arith, ap (λ k. segment m u k n) (suc-eq i))
    where
      suc-eq : (i : ℕ) → suc i ≡ i + 1
      suc-eq i = omega arith

  module _ (i j c : ℕ) (pos : 0 < u) (sm : c * u < 2 ^ 63) where
    -- With `left` at unit `k` afterwards.
    abbrev Got : ℕ → Type 0
    Got k =
        ((get (ring_of m u i j c)).0 ≡ ring_of m u k j c)
        × ((get (ring_of m u i j c)).1 ≡ front (contents m u i j c))
        × (contents m u k j c ≡ rest (contents m u i j c))
        × (k ≤ c)

    Got-straight : j < c → i < j → Got (i + 1)
    unfolding get
    Got-straight ri lt = ground (arith, ltb-mul u i j pos, segment-cons i (j - i))

    Got-empty : j < c → i ≡ j → Got i
    unfolding get
    Got-empty ri e = ground (arith, ltb-mul u i j pos, ==-mul u i j pos)

    Got-wrapped : i < c → j < i → Got (i + 1)
    unfolding get
    Got-wrapped lt lj =
        ground
          (arith, ltb-mul u i j pos, ==-mul u i j pos, ltb-mul u i c pos, segment-cons i (c - i))

    Got-at_end : i ≡ c → j < i → 0 < j → Got 1
    unfolding get
    Got-at_end e lj lz = ground (
      arith,
      ltb-mul u i j pos,
      ==-mul u i j pos,
      ltb-mul u i c pos,
      ltb-mul u 0 j pos,
      segment-cons 0 j,
    )

    Got-nothing : i ≡ c → j < i → j ≡ 0 → Got i
    unfolding get
    Got-nothing e lj lz =
        ground (arith, ltb-mul u i j pos, ==-mul u i j pos, ltb-mul u i c pos, ltb-mul u 0 j pos)

    get-ring_of : i ≤ c → j < c → (k : ℕ) × Got k
    get-ring_of li ri = elim (order i j) [
      | inl lt ↦ (i + 1, Got-straight ri lt)
      | inr (inl e) ↦ (i, Got-empty ri e)
      | inr (inr lt) ↦ elim (order i c) [
        | inl in_buffer ↦ (i + 1, Got-wrapped in_buffer lt)
        | inr (inl e) ↦ elim (order 0 j) [
          | inl some_left ↦ (1, Got-at_end e lt some_left)
          | inr (inl none_left) ↦ (i, Got-nothing e lt (sym none_left))
          | inr (inr below) ↦ absurd (omega arith)
        ]
        | inr (inr past) ↦ absurd (omega arith)
      ]
    ]

-- Taking from a ring that holds `q` gives the front of `q`, or nothing if `q` is empty, and leaves
-- a ring that holds the rest of `q`.
pub get_refines :
    {A : Type 0} {rb : RingBuffer A} {q : List A}
    → Represents rb q
    → Represents (get rb).0 (rest q) × ((get rb).1 ≡ front q)
get_refines {rb = rb} {q = q} r =
    let (k, (ring, out, left, le)) =
      get-ring_of r.mem r.u r.i r.j r.c r.unit_pos r.small r.left_in r.right_in in
    let taken : Represents (ring_of r.mem r.u k r.j r.c) (rest q) = record {
      mem = r.mem;
      u = r.u;
      i = k;
      j = r.j;
      c = r.c;
      shape = refl;
      unit_pos = r.unit_pos;
      left_in = le;
      right_in = r.right_in;
      small = r.small;
      holds = ap rest r.holds ∙ sym left;
    } in
    (
      subst (λ x. Represents x (rest q)) (sym (ap (λ x. (get x).0) r.shape ∙ ring)) taken,
      ap (λ x. (get x).1) r.shape ∙ out ∙ ap front (sym r.holds),
    )

-- A new ring, for units whose sixteen do not reach 2^63 bytes, is empty.
pub init_refines :
    {A : Type 0} (junk : ℕ → A) (u : ℕ) → 0 < u → u * 16 < 2 ^ 63 → Represents (init junk u) []
unfolding init
init_refines junk u pos sm = record {
  mem = junk;
  u = u;
  i = 0;
  j = 0;
  c = 16;
  shape = ground arith;
  unit_pos = pos;
  left_in = omega arith;
  right_in = omega arith;
  small = omega arith;
  holds = refl;
}

pub size-init :
    {A : Type 0} (junk : ℕ → A) (u : ℕ)
    → ((init junk u).size ≡ (u * 16) % 2 ^ 64) × ((init junk u).unit_size ≡ u)
unfolding init
size-init junk u = (refl, refl)
