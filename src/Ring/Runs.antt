-- ===== src/Ring/Runs.antt =====
-- Any sequence of calls on a new ring, against the queue.
use tcpkali.Base.{
  ℕ, suc, ◌+◌, ◌*◌, ◌^◌, ◌≤◌, ◌<◌, ◌≡◌, refl, ap, ◌∙◌, Bool, Option, none, some, List, [], ◌∷◌,
  ◌++◌, arith, length, length-append, Bool-cases, inl, inr,
}
use tcpkali.Ring.{RingBuffer, init, add, get}
use tcpkali.Ring.Refine.{Represents, Added, add_refines}
use tcpkali.Ring.Queue.{front, rest, get_refines, init_refines}

pub data Op (A : Type 0) : Type 0 where
  put : A → Op A
  take : Op A

grown_bound : (u l n s : ℕ) → l ≤ n → s ≤ (l + 2) * u → 2 * s ≤ (2 * suc n + 16) * u
grown_bound u l n s h e = grind arith

same_bound : (u n s : ℕ) → s ≤ (2 * n + 16) * u → s ≤ (2 * suc n + 16) * u
same_bound u n s e = grind arith

room :
    (u n k s : ℕ)
    → s ≤ (2 * n + 16) * u
    → 2 * ((2 * (n + suc k) + 16) * u) < 2 ^ 63
    → 2 * s < 2 ^ 63
room u n k s h b = grind arith

room_step :
    (u n k : ℕ)
    → 2 * ((2 * (n + suc k) + 16) * u) < 2 ^ 63
    → 2 * ((2 * (suc n + k) + 16) * u) < 2 ^ 63
room_step u n k b = omega arith

plus_zero : (k : ℕ) → 0 + k ≡ k
plus_zero k = omega arith

start_small : (u k : ℕ) → 2 * ((2 * k + 16) * u) < 2 ^ 63 → u * 16 < 2 ^ 63
start_small u k b = grind arith

module _ {A : Type 0} where
  -- What each call hands out, in order; `none` is a failed assertion.
  unfoldable pub run : (ℕ → A) → RingBuffer A → List (Op A) → Option (List (Option A))
  run junk rb [] = some []
  run junk rb (put d ∷ ops) = elim (add junk rb d) [
    | none ↦ none
    | some (rb', grown) ↦ run junk rb' ops
  ]
  run junk rb (take ∷ ops) =
      let (rb', out) = get rb in
      elim (run junk rb' ops) [ none ↦ none | some outs ↦ some (out ∷ outs) ]

  -- The same calls on a queue.
  unfoldable pub run_queue : List A → List (Op A) → List (Option A)
  run_queue q [] = []
  run_queue q (put d ∷ ops) = run_queue (q ++ (d ∷ [])) ops
  run_queue q (take ∷ ops) = front q ∷ run_queue (rest q) ops

  abbrev pub puts : List (Op A) → ℕ
  puts [] = 0
  puts (put d ∷ ops) = suc (puts ops)
  puts (take ∷ ops) = puts ops

  pub size-get :
      (rb : RingBuffer A) → ((get rb).0.size ≡ rb.size) × ((get rb).0.unit_size ≡ rb.unit_size)
  unfolding get
  size-get rb = ground arith

  length-rest : (q : List A) → length (rest q) ≤ length q
  length-rest [] = omega arith
  length-rest (x ∷ q) = omega arith

  -- After `n` additions the ring's size is at most `(2 * n + 16) * u` bytes.
  record Within (u n : ℕ) (rb : RingBuffer A) (q : List A) : Type 0 where
    represents : Represents rb q
    unit_is : rb.unit_size ≡ u
    few : length q ≤ n
    bounded : rb.size ≤ (2 * n + 16) * u

  size-Added :
      (u n : ℕ) {rb : RingBuffer A} {q : List A} {d : A} {out : Option (RingBuffer A × Bool)}
      → Within u n rb q
      → (a : Added rb q d out) → a.rb'.size ≤ (2 * suc n + 16) * u
  size-Added u n {rb} {q} w a = elim (Bool-cases a.grown) [
    | inl g ↦
        let s : a.rb'.size ≡ 2 * rb.size = rw g at a.size_is in
        let f : rb.size ≤ (length q + 2) * u = rw w.unit_is at (a.full g) in
        omega (arith, grown_bound u (length q) n rb.size w.few f)
    | inr g ↦
        let s : a.rb'.size ≡ rb.size = rw g at a.size_is in
        omega (arith, same_bound u n rb.size w.bounded)
  ]

  put-Within :
      (u n : ℕ) {rb : RingBuffer A} {q : List A} {d : A} {out : Option (RingBuffer A × Bool)}
      → Within u n rb q
      → (a : Added rb q d out) → Within u (suc n) a.rb' (q ++ (d ∷ []))
  put-Within u n {rb} {q} {d} w a = record {
    represents = a.represents;
    unit_is = a.unit_is ∙ w.unit_is;
    few = omega (arith, length-append q (d ∷ []), w.few);
    bounded = size-Added u n w a;
  }

  take-Within :
      (u n : ℕ) {rb : RingBuffer A} {q : List A} → Within u n rb q → Within u n (get rb).0 (rest q)
  take-Within u n {rb} {q} w = record {
    represents = (get_refines w.represents).0;
    unit_is = (size-get rb).1 ∙ w.unit_is;
    few = omega (arith, length-rest q, w.few);
    bounded = omega (arith, (size-get rb).0, w.bounded);
  }

  run-Within :
      (ops : List (Op A)) (junk : ℕ → A) (u n : ℕ) {rb : RingBuffer A} {q : List A}
      → Within u n rb q
      → 2 * ((2 * (n + puts ops) + 16) * u) < 2 ^ 63
      → run junk rb ops ≡ some (run_queue q ops)
  unfolding run run_queue
  run-Within [] junk u n w b = refl
  run-Within (put d ∷ ops) junk u n {rb} {q} w b =
      let a = add_refines junk d w.represents (room u n (puts ops) rb.size w.bounded b) in
      ground (
        arith,
        a.eq,
        run-Within ops junk u (suc n) (put-Within u n w a) (room_step u n (puts ops) b),
      )
  run-Within (take ∷ ops) junk u n w b =
      ground (arith, (get_refines w.represents).1, run-Within ops junk u n (take-Within u n w) b)

  -- On a new ring any calls give what they give on an empty queue, and no assertion fails, as long
  -- as the number of additions keeps twice the size below 2^63.
  pub run_refines :
      (ops : List (Op A)) (junk : ℕ → A) (u : ℕ)
      → 0 < u
      → 2 * ((2 * puts ops + 16) * u) < 2 ^ 63
      → run junk (init junk u) ops ≡ some (run_queue [] ops)
  unfolding init
  run_refines ops junk u pos b =
      run-Within ops junk u 0
        (record {
          represents = init_refines junk u pos (start_small u (puts ops) b);
          unit_is = refl;
          few = omega arith;
          bounded = omega (arith, start_small u (puts ops) b);
        })
        (omega (arith, ap (λ k. 2 * ((2 * k + 16) * u)) (plus_zero (puts ops))))
