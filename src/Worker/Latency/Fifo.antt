-- ===== src/Worker/Latency/Fifo.antt =====
-- What the latency samples are, and when the process ends.
use tcpkali.Base.{
  ℕ, zero, suc, ◌+◌, ◌-◌, ◌*◌, ◌/◌, ◌%◌, ◌^◌, ◌≤◌, ◌<◌, ◌≡◌, refl, sym, ap, subst, ◌∙◌, inl, inr,
  Bool-cases, Bool, true, false, ◌||◌, List, [], ◌∷◌, ◌++◌, append-nil, append_assoc, some, length,
  length-append, replicate, ltb, ◌==◌, if◌then◌else◌, arith,
}
use native.Mathlib.Nat.{div-le_self, mod-lt}
use tcpkali.Ring.{RingBuffer, add}
use tcpkali.Ring.Segments.{segment}
use tcpkali.Ring.Refine.{contents, Represents, add_refines}
use tcpkali.Worker.Connections.{Outcome, proceeds, exits}
use tcpkali.Worker.Latency.{Latency, add_times, max_ring, with_ring, latency_record_outgoing}

-- A ring of times that holds `q` and is small enough for `more` additions.
pub record Keeps (more : ℕ) (rb : RingBuffer ℕ) (q : List ℕ) : Type 0 where
  pub represents : Represents rb q
  pub unit_is : rb.unit_size ≡ 8
  pub bounded : rb.size ≤ max_ring + 16 * (length q + 2)
  pub room : length q + more < 2 ^ 52

-- It has not grown, or it is small for what it holds.
abbrev pub SmallFor : ℕ → RingBuffer ℕ → Bool → List ℕ → Type 0
SmallFor size rb true q = rb.size ≤ 16 * (length q + 1)
SmallFor size rb false q = rb.size ≡ size

add_step :
    (junk : ℕ → ℕ) (now n : ℕ) (rb after : RingBuffer ℕ) (grown g : Bool)
    → add junk rb now ≡ some (after, g)
    → add_times junk now (suc n) rb grown ≡ add_times junk now n after (grown || g)
unfolding add_times
add_step junk now n rb after grown g e = rw (e, add_times) refl

small_step :
    (size : ℕ) (grown g : Bool) (rb after : RingBuffer ℕ) (q : List ℕ) (now : ℕ)
    → SmallFor size rb grown q
    → after.size ≡ (if g then 2 * rb.size else rb.size)
    → (g ≡ true → rb.size ≤ (length q + 2) * rb.unit_size)
    → rb.unit_size ≡ 8
    → SmallFor size after (grown || g) (q ++ (now ∷ []))
small_step size true true rb after q now s e full u =
    omega (arith, length-append q (now ∷ []), e, full refl, ap (λ k. (length q + 2) * k) u)
small_step size true false rb after q now s e full u =
    omega (arith, length-append q (now ∷ []), s, e)
small_step size false true rb after q now s e full u =
    omega (arith, length-append q (now ∷ []), e, full refl, ap (λ k. (length q + 2) * k) u)
small_step size false false rb after q now s e full u = e ∙ s

bounded_step :
    (g : Bool) (size after n m : ℕ)
    → size ≤ max_ring + 16 * (n + 2)
    → after ≡ (if g then 2 * size else size)
    → (g ≡ true → size ≤ (n + 2) * 8)
    → m ≡ n + 1
    → after ≤ max_ring + 16 * (m + 2)
bounded_step true size after n m b e full longer = omega (arith, b, e, full refl, longer)
bounded_step false size after n m b e full longer = omega (arith, b, e, longer)

added_times :
    (junk : ℕ → ℕ) (now size n more : ℕ) (rb : RingBuffer ℕ) (grown : Bool) (q : List ℕ)
    → Keeps (n + more) rb q
    → SmallFor size rb grown q
    → (after : RingBuffer ℕ) × (g : Bool) × (add_times junk now n rb grown ≡ proceeds (after, g))
      × Keeps more after (q ++ replicate n now)
      × SmallFor size after g (q ++ replicate n now)
unfolding add_times
added_times junk now size zero more rb grown q k s =
    let same = sym (append-nil q) in
    (
      rb,
      grown,
      refl,
      subst (Keeps more rb) same (record {
        represents = k.represents;
        unit_is = k.unit_is;
        bounded = k.bounded;
        room = omega (arith, k.room);
      }),
      subst (SmallFor size rb grown) same s,
    )
added_times junk now size (suc n) more rb grown q k s =
    let a = add_refines junk now k.represents (omega (arith, k.bounded, k.room)) in
    let longer = length-append q (now ∷ []) in
    let kept : Keeps (n + more) a.rb' (q ++ (now ∷ [])) = record {
      represents = a.represents;
      unit_is = a.unit_is ∙ k.unit_is;
      bounded =
          bounded_step a.grown rb.size a.rb'.size (length q) (length (q ++ (now ∷ []))) k.bounded
            a.size_is (rw k.unit_is at a.full) longer;
      room = omega (arith, k.room, longer);
    } in
    let (after, g, e, k_after, s_after) =
      added_times junk now size n more a.rb' (grown || a.grown) (q ++ (now ∷ [])) kept
        (small_step size grown a.grown rb a.rb' q now s a.size_is a.full k.unit_is) in
    let same = append_assoc q (now ∷ []) (replicate n now) in
    (
      after,
      g,
      add_step junk now n rb a.rb' grown a.grown a.eq ∙ e,
      subst (Keeps more after) same k_after,
      subst (SmallFor size after g) same s_after,
    )

length-segment : (m : ℕ → ℕ) (u i n : ℕ) → length (segment m u i n) ≡ n
length-segment m u i zero = refl
length-segment m u i (suc n) = ap suc (length-segment m u (suc i) n)

length-contents : (m : ℕ → ℕ) (u i j c : ℕ) → i ≤ c → j < c → length (contents m u i j c) ≤ c
length-contents m u i j c li lj = ground (
  arith,
  length-append (segment m u i (c - i)) (segment m u 0 j),
  length-segment m u i (c - i),
  length-segment m u 0 j,
  length-segment m u i (j - i),
)

-- A ring of times between two callbacks.
pub record AtRest (rb : RingBuffer ℕ) (q : List ℕ) : Type 0 where
  pub represents : Represents rb q
  pub unit_is : rb.unit_size ≡ 8
  pub bounded : rb.size ≤ max_ring

unit_le : (c u : ℕ) → 0 < u → c ≤ c * u
unit_le c u h = grind arith

few_left : {rb : RingBuffer ℕ} {q : List ℕ} → AtRest rb q → length q ≤ max_ring
few_left {rb} {q} r =
    let s = r.represents in
    omega (
      arith,
      ap length s.holds,
      length-contents s.mem s.u s.i s.j s.c s.left_in s.right_in,
      unit_le s.c s.u s.unit_pos,
      ap (λ x. x.size) s.shape,
      r.bounded,
    )

rested : {rb : RingBuffer ℕ} {q : List ℕ} (n : ℕ) → n < 2 ^ 51 → AtRest rb q → Keeps (n + 0) rb q
rested n small r = record {
  represents = r.represents;
  unit_is = r.unit_is;
  bounded = omega (arith, r.bounded);
  room = omega (arith, few_left r);
}

-- What a batch of additions leads to: it is recorded, or the ring holds too many times.
pub data Batch {C : Type 0} (l : Latency C) (credit : ℕ) (q : List ℕ) (o : Outcome (Latency C))
    : Type 0 where
  batched :
      (rb : RingBuffer ℕ)
      → AtRest rb q
      → o ≡ proceeds (record l { sent_timestamps = rb; message_bytes_credit = credit })
      → Batch l credit q o
  overflows : o ≡ exits 1 → 655360 ≤ length q → Batch l credit q o

closing :
    {C : Type 0} (l : Latency C) (credit more : ℕ) (q : List ℕ) (rb before : RingBuffer ℕ)
    (g : Bool)
    → Keeps more rb q
    → before.size ≤ max_ring
    → SmallFor before.size rb g q
    → Batch l credit q (with_ring l credit (rb, g))
closing l credit more q rb before false k small s =
    batched rb
      (record { represents = k.represents; unit_is = k.unit_is; bounded = omega (arith, s, small) })
      refl
closing l credit more q rb before true k small s = elim (Bool-cases (ltb max_ring rb.size)) [
  | inl h ↦ overflows (rw h refl) (ground (arith, s))
  | inr h ↦
      batched rb (record { represents = k.represents; unit_is = k.unit_is; bounded = ground arith })
        (rw h refl)
]

pub outgoing_lem :
    {C : Type 0} (junk : ℕ → ℕ) (m now w : ℕ) (l : Latency C) (q : List ℕ)
    → 0 < m
    → m ≤ 2 ^ 32
    → w + l.message_bytes_credit < 2 ^ 51
    → AtRest l.sent_timestamps q
    → Batch l
        ((w + l.message_bytes_credit) % m)
        (q ++ replicate ((w + l.message_bytes_credit) / m) now)
        (latency_record_outgoing junk m now w l)
unfolding latency_record_outgoing
outgoing_lem junk m now w l q pos narrow_size small r =
    let n = (w + l.message_bytes_credit) / m in
    let few = div-le_self (w + l.message_bytes_credit) m in
    let (rb, g, e, k, s) =
      added_times junk now l.sent_timestamps.size n 0 l.sent_timestamps false q
        (rested n (omega (arith, few, small)) r) refl in
    let some_size : (m == 0) ≡ false = ground arith in
    let wide : (w + l.message_bytes_credit) % 2 ^ 64 ≡ w + l.message_bytes_credit =
      omega (arith, small) in
    let narrow : (w + l.message_bytes_credit) % m % 2 ^ 32 ≡ (w + l.message_bytes_credit) % m =
      omega (arith, mod-lt (w + l.message_bytes_credit) pos, narrow_size) in
    rw (wide, narrow, some_size, e)
      (closing l ((w + l.message_bytes_credit) % m) 0 (q ++ replicate n now) rb l.sent_timestamps g
        k r.bounded s)
