-- ===== src/Ring/Refine.antt =====
-- The ring holds a queue of units, oldest first, and its operations are those of the queue.
use tcpkali.Base.{
  ℕ, zero, suc, ◌+◌, ◌-◌, ◌*◌, ◌^◌, ◌≤◌, ◌<◌, ◌≡◌, refl, sym, ap, ap₂, subst, ◌∙◌, ◌⊎◌, inl, inr,
  Bool, true, false, Option, none, some, List, [], ◌∷◌, ◌++◌, append-nil, append_assoc, arith, ltb,
  leb, if◌then◌else◌, Option-cases, length, length-append,
}
use tcpkali.Ring.Segments.{
  segment, segment-snoc, segment-store, segment-memcpy, segment-memcpy_below, segment_append,
  ltb-mul, leb-mul, mul_lt, mul_le, length-segment,
}
use tcpkali.Ring.{RingBuffer, store, memcpy, next_right, may_grow, grow, put, add}

-- The ring whose pointers stand at whole units: `left` at unit `i`, `right` at `j`, `c` in all.
abbrev pub ring_of : {A : Type 0} → (ℕ → A) → ℕ → ℕ → ℕ → ℕ → RingBuffer A
ring_of m u i j c = record { mem = m; left = i * u; right = j * u; size = c * u; unit_size = u }

abbrev pub contents : {A : Type 0} → (ℕ → A) → ℕ → ℕ → ℕ → ℕ → List A
contents m u i j c =
    if leb i j then segment m u i (j - i) else segment m u i (c - i) ++ segment m u 0 j

pub record Represents {A : Type 0} (rb : RingBuffer A) (q : List A) : Type 0 where
  pub mem : ℕ → A
  pub u : ℕ
  pub i : ℕ
  pub j : ℕ
  pub c : ℕ
  pub shape : rb ≡ ring_of mem u i j c
  pub unit_pos : 0 < u
  pub left_in : i ≤ c
  pub right_in : j < c
  pub small : c * u < 2 ^ 63
  pub holds : q ≡ contents mem u i j c

-- `next_right`, counted in units.
abbrev next_index : ℕ → ℕ → ℕ → Option ℕ
next_index i j c =
    if ltb j i
    then if leb i (j + 1) then none else some (j + 1)
    else if ltb j (c - 1)
    then some (j + 1)
    else if leb i 1
    then none
    else some 0

abbrev scale : ℕ → Option ℕ → Option ℕ
scale u none = none
scale u (some k) = some (k * u)

le_or_lt : (a b : ℕ) → (a ≤ b) ⊎ (b < a)
le_or_lt a b = omega arith

mul_pred : (u c : ℕ) → 0 < c → (c - 1) * u + u ≡ c * u
mul_pred u zero h = elim h [ ]
mul_pred u (suc c) h = grind arith

module _ {A : Type 0} (m : ℕ → A) (u i j c : ℕ) (pos : 0 < u) where
  next_right-ring_of :
      i ≤ c → j < c → c * u < 2 ^ 63 → next_right (ring_of m u i j c) ≡ scale u (next_index i j c)
  unfolding next_right
  next_right-ring_of li ri sm = ground (
    arith,
    ltb-mul u j i pos,
    leb-mul u i (j + 1) pos,
    ltb-mul u j (c - 1) pos,
    leb-mul u i 1 pos,
    mul_lt u j c pos,
    mul_pred u c,
  )

-- A unit written just behind a run extends it.
push_run :
    {A : Type 0} (m : ℕ → A) (u i n j l : ℕ) (d : A)
    → 0 < u
    → i + n ≡ j
    → l ≡ n + 1
    → segment (store m (j * u) d) u i l ≡ segment m u i n ++ (d ∷ [])
push_run m u i n j l d pos e el =
    ap (segment (store m (j * u) d) u i) el
    ∙ segment-snoc (store m (j * u) d) u i n
    ∙ ap₂ (λ x y. x ++ (y ∷ [])) (segment-store m u i n j d pos (inr (omega arith)))
        (ground (arith, ap (λ k. k * u) e))

module _ {A : Type 0} (m : ℕ → A) (u i j c : ℕ) (d : A) (pos : 0 < u) where
  contents-put :
      (k : ℕ)
      → i ≤ c
      → j < c
      → next_index i j c ≡ some k
      → (k < c) × (contents (store m (j * u) d) u i k c ≡ contents m u i j c ++ (d ∷ []))
  contents-put k li ri e = ground (
    arith,
    push_run m u 0 j j (j + 1) d pos,
    push_run m u i (j - i) j (j + 1 - i) d pos,
    push_run m u i (j - i) j (c - i) d pos,
    segment-store m u i (c - i) j d pos,
    append_assoc (segment m u i (c - i)) (segment m u 0 j) (d ∷ []),
    append-nil (segment m u i (j - i) ++ (d ∷ [])),
  )

mul_sub : (u i j : ℕ) → i ≤ j → (j - i) * u ≡ j * u - i * u
mul_sub u i j h =
    let e : (j - i + i) * u ≡ j * u = ap (λ k. k * u) (omega arith) in omega (arith, e)

-- Growing packs the contents to the front of a buffer twice as large.
record Grown {A : Type 0} (junk m : ℕ → A) (u i j c : ℕ) : Type 0 where
  mem' : ℕ → A
  j' : ℕ
  eq : grow junk (ring_of m u i j c) ≡ ring_of mem' u 0 j' (2 * c)
  right_in : j' < c
  same : contents mem' u 0 j' (2 * c) ≡ contents m u i j c

module _ {A : Type 0} (junk m : ℕ → A) (u i j c : ℕ) (pos : 0 < u) where
  grow_straight : i ≤ c → j < c → c * u < 2 ^ 63 → i ≤ j → Grown junk m u i j c
  unfolding grow
  grow_straight li ri sm le = record {
    mem' = memcpy junk 0 m (i * u) (j * u - i * u);
    j' = j - i;
    eq = ground (arith, leb-mul u i j pos, mul_sub u i j);
    right_in = omega arith;
    same =
        ground
          (arith, segment-memcpy junk m u 0 i (j - i) 0 (i * u) (j * u - i * u) pos, mul_sub u i j);
  }

  grow_wrapped : i ≤ c → j < c → c * u < 2 ^ 63 → j < i → Grown junk m u i j c
  unfolding grow
  grow_wrapped li ri sm lt = record {
    mem' = memcpy (memcpy junk 0 m (i * u) (c * u - i * u)) (c * u - i * u) m 0 (j * u);
    j' = c - i + j;
    eq = ground (arith, leb-mul u i j pos, mul_sub u i c);
    right_in = omega arith;
    same = ground (
      arith,
      segment_append wrapped u 0 (c - i) j,
      segment-memcpy_below first m u (c - i) 0 (c - i) (c * u - i * u) 0 (j * u) pos,
      segment-memcpy junk m u 0 i (c - i) 0 (i * u) (c * u - i * u) pos,
      segment-memcpy first m u (c - i) 0 j (c * u - i * u) 0 (j * u) pos,
      mul_sub u i c,
    );
  }
    where
      first : ℕ → A
      first = memcpy junk 0 m (i * u) (c * u - i * u)

      wrapped : ℕ → A
      wrapped = memcpy first (c * u - i * u) m 0 (j * u)

  grow-Grown : i ≤ c → j < c → c * u < 2 ^ 63 → Grown junk m u i j c
  grow-Grown li ri sm = elim (le_or_lt i j) [
    | inl le ↦ grow_straight li ri sm le
    | inr lt ↦ grow_wrapped li ri sm lt
  ]

-- What `ring_buffer_add` leaves: a ring that holds the queue with the datum behind it.
pub record Added {A : Type 0} (rb : RingBuffer A) (q : List A) (d : A)
    (out : Option (RingBuffer A × Bool)) : Type 0 where
  pub rb' : RingBuffer A
  pub grown : Bool
  pub eq : out ≡ some (rb', grown)
  pub represents : Represents rb' (q ++ (d ∷ []))
  pub size_is : rb'.size ≡ (if grown then 2 * rb.size else rb.size)
  pub unit_is : rb'.unit_size ≡ rb.unit_size
  pub full : grown ≡ true → rb.size ≤ (length q + 2) * rb.unit_size

put-Represents :
    {A : Type 0} (m : ℕ → A) (u i j c : ℕ) (d : A) (k : ℕ)
    → 0 < u
    → i ≤ c
    → j < c
    → c * u < 2 ^ 63
    → next_index i j c ≡ some k
    → Represents (put (ring_of m u i j c) d (k * u)) (contents m u i j c ++ (d ∷ []))
put-Represents m u i j c d k pos li ri sm e =
    let (lt, same) = contents-put m u i j c d pos k li ri e in
    record {
      mem = store m (j * u) d;
      u = u;
      i = i;
      j = k;
      c = c;
      shape = refl;
      unit_pos = pos;
      left_in = li;
      right_in = lt;
      small = sm;
      holds = sym same;
    }

module _ {A : Type 0} (junk m : ℕ → A) (u i j c : ℕ) (d : A) (pos : 0 < u) where
  units_full : j < c → i ≤ c → next_index i j c ≡ none → c ≤ length (contents m u i j c) + 2
  units_full ri li e = ground (
    arith,
    length-segment m u i (j - i),
    length-append (segment m u i (c - i)) (segment m u 0 j),
    length-segment m u i (c - i),
    length-segment m u 0 j,
  )

  add_in_place :
      (k : ℕ)
      → i ≤ c
      → j < c
      → c * u < 2 ^ 63
      → next_index i j c ≡ some k
      → Added (ring_of m u i j c) (contents m u i j c) d (add junk (ring_of m u i j c) d)
  unfolding add
  add_in_place k li ri sm e = record {
    rb' = put (ring_of m u i j c) d (k * u);
    grown = false;
    eq = ground (arith, next_right-ring_of m u i j c pos li ri sm, e);
    represents = put-Represents m u i j c d k pos li ri sm e;
    size_is = refl;
    unit_is = refl;
    full = λ h. cc;
  }

  may_grow-ring_of : i ≤ c → j < c → may_grow (ring_of m u i j c) ≡ true
  may_grow-ring_of li ri =
      ground (arith, mul_le u i c li, mul_le u j c (omega (arith, ri)), mul_lt u j c pos ri)

  add_grown :
      i ≤ c
      → j < c
      → 2 * (c * u) < 2 ^ 63
      → next_index i j c ≡ none
      → Added (ring_of m u i j c) (contents m u i j c) d (add junk (ring_of m u i j c) d)
  unfolding add
  add_grown li ri sm e =
      let g = grow-Grown junk m u i j c pos li ri (omega arith) in
      let room : next_index 0 g.j' (2 * c) ≡ some (g.j' + 1) = ground (arith, g.right_in) in
      let big : 2 * c * u < 2 ^ 63 = omega arith in
      record {
        rb' = put (ring_of g.mem' u 0 g.j' (2 * c)) d ((g.j' + 1) * u);
        grown = true;
        eq = ground (
          arith,
          next_right-ring_of m u i j c pos li ri (omega arith),
          e,
          may_grow-ring_of li ri,
          g.eq,
          next_right-ring_of g.mem' u 0 g.j' (2 * c) pos (omega arith) (omega (arith, g.right_in))
              big,
          room,
        );
        represents = rw (← g.same) (
            put-Represents g.mem' u 0 g.j' (2 * c) d (g.j' + 1) pos (omega arith)
              (omega (arith, g.right_in)) big room);
        size_is = omega arith;
        unit_is = refl;
        full = λ h. mul_le u c (length (contents m u i j c) + 2) (units_full ri li e);
      }

  add-ring_of :
      i ≤ c
      → j < c
      → 2 * (c * u) < 2 ^ 63
      → Added (ring_of m u i j c) (contents m u i j c) d (add junk (ring_of m u i j c) d)
  add-ring_of li ri sm = elim (Option-cases (next_index i j c)) [
    | inl e ↦ add_grown li ri sm e
    | inr (k, e) ↦ add_in_place k li ri (omega arith) e
  ]

-- Adding to a ring that holds `q`, where twice its size is below 2^63, never fails the assertion:
-- the ring then holds `q` with the datum behind it, and its size is the old one, or twice the old
-- one exactly if it reports that it has grown. It grows only where at most two of its units are
-- free.
pub add_refines :
    {A : Type 0} {rb : RingBuffer A} {q : List A} (junk : ℕ → A) (d : A)
    → Represents rb q
    → 2 * rb.size < 2 ^ 63
    → Added rb q d (add junk rb d)
add_refines {rb = rb} {q = q} junk d r = rw r.holds (
    subst (λ x. 2 * x.size < 2 ^ 63 → Added x (contents r.mem r.u r.i r.j r.c) d (add junk x d))
      (sym r.shape) (add-ring_of junk r.mem r.u r.i r.j r.c d r.unit_pos r.left_in r.right_in))
