-- ===== src/Ring.antt =====
-- src/tcpkali_ring.h and src/tcpkali_ring.c: the growing ring of send timestamps.
-- A pointer into the buffer is its byte offset from `ptr`; the buffer is the function from a byte
-- offset to the datum that is stored there. `malloc` gives a buffer of unknown contents, an
-- argument of the operations that allocate, and does not fail.
pub mod Segments
pub mod Refine
pub mod Queue
pub mod Runs
mod Tests
use tcpkali.Base.{
  ℕ, ◌+◌, ◌-◌, ◌*◌, ◌%◌, ◌^◌, Bool, true, false, ◌&&◌, Option, none, some, ltb, leb, ◌==◌,
  if◌then◌else◌,
}

pub record RingBuffer (A : Type 0) : Type 0 where
  pub mem : ℕ → A
  pub left : ℕ
  pub right : ℕ
  pub size : ℕ
  pub unit_size : ℕ

-- `x < (ssize_t)y`, for an offset `x`: the cast of a `y` from 2^63 up is negative.
abbrev pub lt_ssize : ℕ → ℕ → Bool
lt_ssize x y = ltb x y && ltb y (2 ^ 63)

-- `size_t` subtraction wraps.
abbrev pub sub_size : ℕ → ℕ → ℕ
sub_size a b = (a + 2 ^ 64 - b) % 2 ^ 64

abbrev pub store {ℓ} : {A : Type ℓ} → (ℕ → A) → ℕ → A → ℕ → A
store m p d o = if o == p then d else m o

-- `memcpy(dst + to, src + from, n)`, with the offsets in bytes.
abbrev pub memcpy {ℓ} : {A : Type ℓ} → (ℕ → A) → ℕ → (ℕ → A) → ℕ → ℕ → ℕ → A
memcpy dst to src from n o = if leb to o && ltb o (to + n) then src (from + (o - to)) else dst o

module _ {A : Type 0} where
  pub init : (ℕ → A) → ℕ → RingBuffer A
  init junk unit = record {
    mem = junk;
    left = 0;
    right = 0;
    size = (unit * 16) % 2 ^ 64;
    unit_size = unit;
  }

  pub next_right : RingBuffer A → Option ℕ
  next_right rb =
      if ltb rb.right rb.left
      then if leb rb.left (rb.right + rb.unit_size) then none else some (rb.right + rb.unit_size)
      else if lt_ssize rb.right (sub_size rb.size rb.unit_size)
      then some (rb.right + rb.unit_size)
      else if leb rb.left rb.unit_size
      then none
      else some 0

  -- The assertions of `ring_buffer_grow`.
  abbrev pub may_grow : RingBuffer A → Bool
  may_grow rb =
      ltb 0 rb.unit_size && (ltb 0 rb.size && (leb rb.right rb.size && leb rb.left rb.size))

  pub grow : (ℕ → A) → RingBuffer A → RingBuffer A
  grow junk rb =
      if leb rb.left rb.right
      then record rb {
        mem = memcpy junk 0 rb.mem rb.left (rb.right - rb.left);
        left = 0;
        right = rb.right - rb.left;
        size = (2 * rb.size) % 2 ^ 64;
      }
      else let first = rb.size - rb.left in
        record rb {
          mem = memcpy (memcpy junk 0 rb.mem rb.left first) first rb.mem 0 rb.right;
          left = 0;
          right = first + rb.right;
          size = (2 * rb.size) % 2 ^ 64;
        }

  abbrev pub put : RingBuffer A → A → ℕ → RingBuffer A
  put rb d np = record rb { mem = store rb.mem rb.right d; right = np }

  -- The flag is `grown`; `none` is a failed assertion.
  pub add : (ℕ → A) → RingBuffer A → A → Option (RingBuffer A × Bool)
  add junk rb d = elim (next_right rb) [
    | some np ↦ some (put rb d np, false)
    | none ↦
        let g = grow junk rb in
        elim (if may_grow rb then next_right g else none) [
          | some np ↦ some (put g d np, true)
          | none ↦ none
        ]
  ]

  -- The option is what goes through `datump` (`none` for a result of 0).
  pub get : RingBuffer A → RingBuffer A × Option A
  get rb =
      if ltb rb.left rb.right
      then (record rb { left = rb.left + rb.unit_size }, some (rb.mem rb.left))
      else if rb.left == rb.right
      then (rb, none)
      else if lt_ssize rb.left rb.size
      then (record rb { left = rb.left + rb.unit_size }, some (rb.mem rb.left))
      else if ltb 0 rb.right
      then (record rb { left = rb.unit_size }, some (rb.mem 0))
      else (rb, none)
