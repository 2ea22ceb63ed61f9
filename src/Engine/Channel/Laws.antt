-- ===== src/Engine/Channel/Laws.antt =====
-- What a limit lets through.
use tcpkali.Base.{
  ℕ, zero, suc, ◌+◌, ◌-◌, ◌*◌, ◌/◌, ◌%◌, ◌≤◌, ◌<◌, ◌≡◌, refl, ◌⊎◌, inl, inr, Bool-cases, Bool, true,
  false, Option, none, some, max, ltb, ◌==◌, if◌then◌else◌, arith,
}
use tcpkali.Engine.Channel.{
  Event, tk_read, tk_write, LbReturnValue, unlimited, proceed, lockstep, go_sleep, read_batch,
  limit_channel_bandwidth,
}

divided : (n m : ℕ) → 0 < m → ((n / m) * m + n % m ≡ n) × (n % m < m)
divided n m pos = grind arith

-- What is promised for each result. Without a limit, or if all that is suggested is allowed, that
-- is moved. Otherwise a write moves the largest multiple of the smallest block that is allowed, in
-- lockstep, and sleeps if that is nothing; a read moves what is allowed, or 1460 bytes where that is
-- less, and sleeps if less than the smallest block is allowed. A write divides by the smallest block.
abbrev pub Limited : Bool → ℕ → ℕ → ℕ → Event → Option (LbReturnValue × ℕ) → Type 0
Limited limit_set smallest allowed suggested event none =
    (limit_set ≡ true) × (allowed < suggested) × (event ≡ tk_write) × (smallest ≡ 0)
Limited limit_set smallest allowed suggested event (some (unlimited, n)) =
    (limit_set ≡ false) × (n ≡ suggested)
Limited limit_set smallest allowed suggested event (some (proceed, n)) =
    (limit_set ≡ true)
    × (((suggested ≤ allowed) × (n ≡ suggested))
        ⊎ ((allowed < suggested)
            × (event ≡ tk_read)
            × (smallest ≤ allowed)
            × (n ≡ max allowed 1460)
            × (n ≤ max suggested 1460)))
Limited limit_set smallest allowed suggested event (some (lockstep, n)) =
    (limit_set ≡ true)
    × (allowed < suggested)
    × (event ≡ tk_write)
    × (0 < n)
    × (n ≤ allowed)
    × (allowed < n + smallest)
    × ((blocks : ℕ) × (n ≡ blocks * smallest))
    × (n < suggested)
Limited limit_set smallest allowed suggested event (some (go_sleep, n)) =
    (limit_set ≡ true) × (allowed < suggested) × (allowed < smallest) × (n ≡ 0)

read_batch-max : (a : ℕ) → read_batch a ≡ max a 1460
read_batch-max a = elim (Bool-cases (ltb 1460 a)) [
  | inl e ↦ rw e (ground arith)
  | inr e ↦ rw e (ground arith)
]

blocks_bounds :
    (a m : ℕ)
    → 0 < m
    → m ≤ a
    → (a - a % m ≤ a) × (a < a - a % m + m) × (m ≤ a - a % m) × (a - a % m ≡ (a / m) * m)
blocks_bounds a m pos le =
    let (split, below) = divided a m pos in
    let one : m ≤ (a / m) * m = one_block (a / m) (omega (arith, split, below)) in
    omega (arith, split, below, one)
  where
    one_block : (q : ℕ) → 0 < q * m → m ≤ q * m
    one_block zero h = omega (arith, h)
    one_block (suc q) h = omega arith

batch_bounds : (a s : ℕ) → a < s → max a 1460 ≤ max s 1460
batch_bounds a s h = omega (arith, h)

lockstep-Limited :
    (smallest allowed suggested : ℕ)
    → allowed < suggested
    → smallest ≤ allowed
    → Limited true smallest allowed suggested tk_write
        (if smallest == 0 then none else some (lockstep, allowed - allowed % smallest))
lockstep-Limited smallest allowed suggested less enough = elim (Bool-cases (smallest == 0)) [
  | inl e ↦ rw e (refl, less, refl, ground arith)
  | inr e ↦
      let pos : 0 < smallest = ground arith in
      let (a, b, c, d) = blocks_bounds allowed smallest pos enough in
      rw e (
        refl,
        less,
        refl,
        omega (arith, c, pos),
        a,
        b,
        (allowed / smallest, d),
        omega (arith, a, less),
      )
]

above-Limited :
    (smallest allowed suggested : ℕ) (event : Event)
    → allowed < suggested
    → smallest ≤ allowed
    → Limited true smallest allowed suggested event (elim event [
      | tk_read ↦ some (proceed, read_batch allowed)
      | tk_write ↦ if smallest == 0 then none else some (lockstep, allowed - allowed % smallest)
    ])
above-Limited smallest allowed suggested tk_read less enough = (
  refl,
  inr (
    less,
    refl,
    enough,
    read_batch-max allowed,
    omega (arith, read_batch-max allowed, batch_bounds allowed suggested less),
  ),
)
above-Limited smallest allowed suggested tk_write less enough =
    lockstep-Limited smallest allowed suggested less enough

-- Whatever the limit, what is allowed and what is suggested: without a limit, or if all that is
-- suggested is allowed, that is moved. Otherwise a write moves the largest multiple of the smallest
-- block that is allowed, in lockstep and less than suggested, and sleeps if not one block is
-- allowed; a read sleeps then too, and otherwise moves what is allowed, but at least 1460 bytes. A
-- division by 0 takes place exactly in a limited write with a smallest block of 0 bytes.
pub limit_channel_bandwidth_total :
    (limit_set : Bool) (smallest allowed suggested : ℕ) (event : Event)
    → Limited limit_set smallest allowed suggested event
        (limit_channel_bandwidth limit_set smallest allowed suggested event)
unfolding limit_channel_bandwidth
limit_channel_bandwidth_total false smallest allowed suggested event = (refl, refl)
limit_channel_bandwidth_total true smallest allowed suggested event =
    elim (Bool-cases (ltb allowed suggested)) [
      | inr e ↦ rw e (refl, inl (ground arith, refl))
      | inl e ↦ elim (Bool-cases (ltb allowed smallest)) [
        | inl f ↦ rw e (rw f (refl, ground arith, ground arith, refl))
        | inr f ↦
            rw e
              (rw f (above-Limited smallest allowed suggested event (ground arith) (ground arith)))
      ]
    ]
