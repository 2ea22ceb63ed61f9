-- ===== src/Transport/Payload/Laws.antt =====
-- A replicated payload.
use tcpkali.Base.{
  ℕ, zero, suc, ◌+◌, ◌-◌, ◌*◌, ◌%◌, ◌^◌, ◌≤◌, ◌<◌, ◌≡◌, refl, sym, ap, ap₂, ◌∙◌, ◌⊎◌, true, false,
  Bytes, [], ◌∷◌, ◌++◌, append_assoc, append-nil, none, some, length, length-append, length-drop,
  take, drop, leb, ◌==◌, if◌then◌else◌, Bool-cases, inl, inr, arith,
}
use tcpkali.Transport.Payload.{
  DataSpec, total_size, times, with_contents, grown, asserted, replicate_payload,
}

take-drop : (n : ℕ) (s : Bytes) → take n s ++ drop n s ≡ s
take-drop zero s = refl
take-drop (suc n) [] = refl
take-drop (suc n) (c ∷ s) = ap (λ t. c ∷ t) (take-drop n s)

pub length-times : (n : ℕ) (s : Bytes) → length (times n s) ≡ n * length s
length-times zero s = omega arith
length-times (suc n) s = omega (arith, length-append s (times n s), length-times n s)

pred : (n : ℕ) → n ≡ suc n - 1
pred n = omega arith

times_pred : (n : ℕ) (s : Bytes) → 1 ≤ n → times n s ≡ s ++ times (n - 1) s
times_pred zero s h = elim h [ ]
times_pred (suc n) s h = ap (λ k. s ++ times k s) (pred n)

-- Both sizes are doubles, and a quotient that is not whole is further from a whole number than a
-- double rounds it.
abbrev pub IsCeil : (ℕ → ℕ → ℕ) → Type 0
IsCeil ceil_quotient =
    (n m : ℕ)
    → n < 2 ^ 52
    → 0 < m
    → m < 2 ^ 52
    → (n ≤ ceil_quotient n m * m) × (ceil_quotient n m * m < n + m)

-- The payload was repeated `n` times, no more than are needed to reach the target.
abbrev pub Repeated : DataSpec → ℕ → DataSpec → Type 0
Repeated d target d' =
    (n : ℕ) × (1 ≤ n)
    × (d'.contents ≡ take d.once_size d.contents ++ times n (drop d.once_size d.contents))
    × (d.once_size < total_size d → target + d.once_size ≤ total_size d')
    × ((n ≡ 1) ⊎ (n * (total_size d - d.once_size) < target + (total_size d - d.once_size)))
    × ((n ≡ 1) ⊎ (total_size d' < d'.allocated_size))
    × (d'.is_replicated ≡ true)
    × (d'.once_size ≡ d.once_size)

once-Repeated :
    (d : DataSpec) (target : ℕ)
    → (d.once_size < total_size d → target + d.once_size ≤ total_size d)
    → Repeated d target (with_contents d d.contents d.allocated_size)
once-Repeated d target enough = (
  1,
  omega arith,
  sym (take-drop d.once_size d.contents)
      ∙ ap (λ t. take d.once_size d.contents ++ t) (sym (append-nil (drop d.once_size d.contents))),
  enough,
  inl refl,
  inl refl,
  refl,
  refl,
)

positive_factor : (n m : ℕ) → 1 ≤ n * m → 1 ≤ n
positive_factor zero m h = omega (arith, h)
positive_factor (suc n) m h = omega arith

pred_mul : (n m : ℕ) → 1 ≤ n → (n - 1) * m + m ≡ n * m
pred_mul zero m h = elim h [ ]
pred_mul (suc n) m h = ap (λ k. k * m + m) (sym (pred n)) ∙ omega arith

grown-Repeated :
    (d : DataSpec) (target n p : ℕ)
    → p ≡ length (drop d.once_size d.contents)
    → p ≡ total_size d - d.once_size
    → 1 ≤ p
    → p < target
    → target ≤ n * p
    → n * p < target + p
    → target < 2 ^ 52
    → total_size d < 2 ^ 52
    → Repeated d target (grown d (drop d.once_size d.contents) n)
grown-Repeated d target n p is_length is_payload some_there small reach near low lower =
    let payload = drop d.once_size d.contents in
    let rounds : 1 ≤ n = positive_factor n p (omega arith) in
    let times_p : length (times (n - 1) payload) ≡ (n - 1) * p =
      length-times (n - 1) payload ∙ ap (λ k. (n - 1) * k) (sym is_length) in
    let total : length (d.contents ++ times (n - 1) payload) ≡ d.once_size + n * p =
      omega
        (arith, length-append d.contents (times (n - 1) payload), times_p, pred_mul n p rounds) in
    let same : d.contents ++ times (n - 1) payload
        ≡ take d.once_size d.contents ++ times n payload =
      ap (λ c. c ++ times (n - 1) payload) (sym (take-drop d.once_size d.contents))
      ∙ append_assoc (take d.once_size d.contents) payload (times (n - 1) payload)
      ∙ ap (λ t. take d.once_size d.contents ++ t) (sym (times_pred n payload rounds)) in
    let room : d.once_size + n * p < (d.once_size + (n * length payload) % 2 ^ 64 + 1) % 2 ^ 64 =
      rw (← is_length) (omega (arith, near, low, lower, is_payload, some_there)) in
    (
      n,
      rounds,
      same,
      omega (arith, total),
      inr (omega (arith, near, ap (λ k. n * k) is_payload)),
      inr (omega (arith, total, room)),
      refl,
      refl,
    )

module _ (ceil_quotient : ℕ → ℕ → ℕ) (ceils : IsCeil ceil_quotient) where
  abbrev replicated : DataSpec → ℕ → DataSpec
  replicated d target =
      let payload = drop d.once_size d.contents in
      if length payload == 0
      then with_contents d d.contents d.allocated_size
      else if leb target (length payload)
      then with_contents d d.contents d.allocated_size
      else grown d payload (ceil_quotient target (length payload))

  replicated-Repeated :
      (d : DataSpec) (target : ℕ)
      → d.once_size ≤ total_size d
      → total_size d < 2 ^ 52
      → target < 2 ^ 52
      → Repeated d target (replicated d target)
  replicated-Repeated d target once lower low =
      let p = length (drop d.once_size d.contents) in
      let is_payload : p ≡ total_size d - d.once_size = length-drop d.once_size d.contents in
      elim (Bool-cases (p == 0)) [
        | inl e ↦
            let none_there : p ≡ 0 = ground arith in
            rw e (once-Repeated d target (omega (arith, none_there, is_payload)))
        | inr e ↦
            let some_there : 1 ≤ p = ground arith in
            elim (Bool-cases (leb target p)) [
              | inl f ↦
                  let large : target ≤ p = ground arith in
                  rw e (rw f (once-Repeated d target (omega (arith, large, is_payload))))
              | inr f ↦
                  let small : p < target = ground arith in
                  let (reach, near) =
                    ceils target p low some_there (omega (arith, is_payload, lower)) in
                  rw e (
                    rw f (
                      grown-Repeated d target (ceil_quotient target p) p refl is_payload some_there
                        small reach near low lower))
            ]
      ]

  -- Where `ceil` of a quotient of doubles is the quotient rounded up, for sizes below 2 ^ 52: a
  -- payload below 2 ^ 52 bytes that is not yet replicated and has no marker is replicated for a
  -- target below 2 ^ 52 without a failed assertion. What is sent once stays in front, the payload is
  -- repeated once or more, and if there is any the whole payload has the target's size. It is
  -- repeated no more often than that takes, and where it is repeated the buffer has room for one
  -- byte more.
  pub replicate_payload_total :
      (d : DataSpec) (target : ℕ)
      → d.is_replicated ≡ false
      → d.marker_token_ptr ≡ none
      → d.once_size ≤ total_size d
      → total_size d < 2 ^ 52
      → target < 2 ^ 52
      → (d' : DataSpec) × (replicate_payload ceil_quotient d target ≡ some d')
        × Repeated d target d'
  unfolding replicate_payload
  replicate_payload_total d target new plain once lower low = (
    replicated d target,
    ap₂ (λ b m. asserted b m (replicated d target)) new plain,
    replicated-Repeated d target once lower low,
  )
