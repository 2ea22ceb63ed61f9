-- ===== src/Regex/Built.antt =====
-- The expressions that the functions of Build make, as long as no size overflows, no class is empty,
-- and none gets all 256 characters.
pub mod Ops
use tcpkali.Base.{
  ℕ, zero, suc, ◌+◌, ◌-◌, ◌*◌, ◌%◌, ◌^◌, ◌≤◌, ◌<◌, ◌≡◌, ◌≢◌, refl, ◌⊎◌, inl, inr, Bool, true, false,
  Bytes, List, [], ◌∷◌, ◌++◌, Option, none, some, length, length-append, arith, ap, sym, ◌∙◌, ltb,
  leb, ◌==◌, if◌then◌else◌, Bool-cases, subst, some-injective,
}
use tcpkali.Regex.{
  OneOf, Regex, node, Kind, chars, oneof, sequence, alternative, repeat, Regexes, nil, cons,
  min_size, max_size, kind_of, count, join_lists, elements,
}
use tcpkali.Regex.Build.{
  string, push, no_chars, push_range, range, push_new, range_from_string, in_table, push_unused,
  union_ranges, join_sequence, join, with_pieces, empty_sequence, alternative_of, alternative_add,
  repeat_from, repeat_of,
}
use tcpkali.Regex.Matches.{sum_min, sum_max, IsSized, IsSizedKind, AreSized, AreWithin}
use tcpkali.Regex.Sized.{mul_mono}

-- The different characters of a string, without those that are used already.
abbrev pub distinct_in : (ℕ → Bool) → Bytes → ℕ
distinct_in used [] = 0
distinct_in used (c ∷ cs) =
    let others = distinct_in (λ i. if i == c then true else used i) cs in
    if used c then others else suc others

-- The entries of a table, from `i` on, that are not used.
abbrev pub unused_in : (ℕ → Bool) → (ℕ → ℕ) → ℕ → ℕ → ℕ
unused_in used table i zero = 0
unused_in used table i (suc n) =
    let others = unused_in used table (i + 1) n in if used (table i) then others else suc others

-- The characters of two classes together.
abbrev pub union_size : Regex → Regex → ℕ
union_size (node lo avg hi (oneof o)) (node lo' avg' hi' (oneof o')) =
    o.size + unused_in (in_table o.table o.size) o'.table 0 o'.size
union_size re rhs = 0

pub data Built : Regex → Type 0 where
  from_text : (s : Bytes) → Built (string s)
  from_range : (from to : ℕ) → from ≤ to → to < from + 255 → Built (range from to)
  from_set : (s : Bytes) → s ≢ [] → distinct_in (λ i. false) s < 256 → Built (range_from_string s)
  from_union :
      {re rhs r : Regex}
      → Built re
      → Built rhs
      → union_size re rhs < 256
      → union_ranges re rhs ≡ some r
      → Built r
  from_join :
      {re rhs r : Regex}
      → Built re
      → Built rhs
      → max_size re + max_size rhs < 2 ^ 64
      → join re rhs ≡ some r
      → Built r
  from_branch : {re : Regex} → Built re → Built (alternative_of re)
  from_branches :
      {re rhs r : Regex} → Built re → Built rhs → alternative_add re rhs ≡ some r → Built r
  from_repeat :
      {re : Regex} (start stop : ℕ)
      → Built re
      → start < 2 ^ 32
      → stop < 2 ^ 32
      → max_size re * start < 2 ^ 64
      → max_size re * stop < 2 ^ 64
      → Built (repeat_of re start stop)

-- An `unsigned char` counts the characters.
pub size-push_range :
    (o : OneOf) (i n : ℕ) → o.size < 256 → (push_range o i n).size ≡ (o.size + n) % 256
unfolding push_range
size-push_range o i zero h = omega (arith, h)
size-push_range o i (suc n) h = omega (arith, size-push_range (push o i) (i + 1) n (omega arith))

pub size-push_new :
    (o : OneOf) (used : ℕ → Bool) (s : Bytes)
    → o.size < 256
    → (push_new o used s).size ≡ (o.size + distinct_in used s) % 256
unfolding push_new
size-push_new o used [] h = omega (arith, h)
size-push_new o used (c ∷ s) h =
    let used_then : ℕ → Bool = λ i. if i == c then true else used i in
    elim (Bool-cases (used c)) [
      | inl e ↦ rw (e, push_new) (size-push_new o used_then s h)
      | inr e ↦ rw (e, push_new) (omega (arith, size-push_new (push o c) used_then s (omega arith)))
    ]

pub size-push_unused :
    (o : OneOf) (used : ℕ → Bool) (rhs : OneOf) (i n : ℕ)
    → o.size < 256
    → (push_unused o used rhs i n).size ≡ (o.size + unused_in used rhs.table i n) % 256
unfolding push_unused
size-push_unused o used rhs i zero h = omega (arith, h)
size-push_unused o used rhs i (suc n) h = elim (Bool-cases (used (rhs.table i))) [
  | inl e ↦ rw (e, push_unused) (size-push_unused o used rhs (i + 1) n h)
  | inr e ↦
      rw (e, push_unused)
        (omega (arith, size-push_unused (push o (rhs.table i)) used rhs (i + 1) n (omega arith)))
]
