-- ===== src/Regex/Full.antt =====
-- Classes of all 256 characters.
use tcpkali.Base.{ℕ, ◌≤◌, ◌<◌, ◌≡◌, subst, Bytes, some, some-injective, false, arith}
use tcpkali.Regex.{OneOf, Regex, node, max_size, oneof}
use tcpkali.Regex.Build.{
  no_chars, push_range, range, push_new, range_from_string, in_table, push_unused, union_ranges,
}
use tcpkali.Regex.Built.{distinct_in, union_size, size-push_range, size-push_new, size-push_unused}
use tcpkali.Regex.Eval.{fault, eval}

abbrev pub class_size : Regex → ℕ
class_size (node lo avg hi (oneof o)) = o.size
class_size re = 0

-- The calls that make a class of all 256 characters: of the whole range, of a string that has them
-- all, or of two classes that have them all together.
pub data IsFull : Regex → Type 0 where
  all_range : IsFull (range 0 255)
  all_in_string : (s : Bytes) → distinct_in (λ i. false) s ≡ 256 → IsFull (range_from_string s)
  all_in_union :
      (re rhs : Regex) {r : Regex}
      → class_size re < 256
      → union_size re rhs ≡ 256
      → union_ranges re rhs ≡ some r
      → IsFull r

-- A class whose number of characters has become 0.
data WithNone : Regex → Type 0 where
  with_none : (lo avg hi : ℕ) (o : OneOf) → o.size ≡ 0 → WithNone (node lo avg hi (oneof o))

union_WithNone :
    (re rhs r : Regex)
    → class_size re < 256
    → union_size re rhs ≡ 256
    → union_ranges re rhs ≡ some r
    → WithNone r
unfolding union_ranges
union_WithNone (node lo avg hi (oneof o)) (node lo' avg' hi' (oneof o')) r small full e =
    subst WithNone (some-injective _ _ e) (
      with_none lo avg hi (push_unused o (in_table o.table o.size) o' 0 o'.size)
        (omega (arith, full, size-push_unused o (in_table o.table o.size) o' 0 o'.size small)))
union_WithNone (node lo avg hi (oneof o)) (node lo' avg' hi' kind) r small full e = cc
union_WithNone (node lo avg hi kind) rhs r small full e = cc

IsFull-WithNone : {r : Regex} → IsFull r → WithNone r
IsFull-WithNone all_range =
    unfold range in
    with_none 1 1 1 (push_range no_chars 0 256)
      (omega (arith, size-push_range no_chars 0 256 (omega arith)))
IsFull-WithNone (all_in_string s full) =
    unfold range_from_string in
    with_none 1 1 1 (push_new no_chars (λ i. false) s)
      (omega (arith, full, size-push_new no_chars (λ i. false) s (omega arith)))
IsFull-WithNone (all_in_union re rhs {r} small full e) = union_WithNone re rhs r small full e

fails :
    {G : Type 0} (rand : G → ℕ → ℕ × G) {re : Regex} (size : ℕ) (g : G)
    → max_size re ≤ size
    → WithNone re
    → eval rand re size g ≡ (fault, g)
unfolding eval
fails rand size g room (with_none lo avg hi o e) = ground (arith, e, room)

-- Whatever call makes a class of all 256 characters, from the whole range, a string or two classes,
-- the class counts as empty: making a string from it fails an assertion in any buffer of the
-- class's largest size or more, whatever the generator.
pub eval-IsFull :
    {G : Type 0} (rand : G → ℕ → ℕ × G) {re : Regex} (size : ℕ) (g : G)
    → max_size re ≤ size
    → IsFull re
    → eval rand re size g ≡ (fault, g)
eval-IsFull rand size g room full = fails rand size g room (IsFull-WithNone full)
