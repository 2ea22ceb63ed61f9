-- ===== src/Regex/Built/Ops.antt =====
-- Each of them has right sizes.
use tcpkali.Base.{
  ℕ, ◌+◌, ◌-◌, ◌*◌, ◌%◌, ◌^◌, ◌≤◌, ◌<◌, ◌≡◌, ◌≢◌, refl, inl, inr, Bool, true, false, Bytes, [], ◌∷◌,
  none, some, arith, ltb, ◌==◌, if◌then◌else◌, Bool-cases, subst, some-injective,
}
use tcpkali.Regex.{
  Regex, node, chars, oneof, sequence, alternative, Regexes, nil, cons, min_size, max_size, count,
  join_lists,
}
use tcpkali.Regex.Build.{
  string, push, no_chars, range, range_from_string, in_table, union_ranges, join_sequence, join,
  with_pieces, empty_sequence, alternative_of, alternative_add, repeat_from, repeat_of,
}
use tcpkali.Regex.Matches.{sum_min, sum_max, IsSized, IsSizedKind, AreSized, AreWithin}
use tcpkali.Regex.Sized.{mul_mono}
use tcpkali.Regex.Built.{
  distinct_in, union_size, Built, from_text, from_range, from_set, from_union, from_join,
  from_branch, from_branches, from_repeat, size-push_range, size-push_new, size-push_unused,
}

AreSized-join_lists :
    (ps qs : Regexes)
    → AreSized ps
    → AreSized qs
    → AreSized (join_lists ps qs)
      × (sum_min (join_lists ps qs) ≡ sum_min ps + sum_min qs)
      × (sum_max (join_lists ps qs) ≡ sum_max ps + sum_max qs)
unfolding AreSized
AreSized-join_lists nil qs h k = (k, omega arith, omega arith)
AreSized-join_lists (cons p ps) qs h k =
    let (all, lo, hi) = AreSized-join_lists ps qs h.1 k in ((h.0, all), omega arith, omega arith)

AreWithin-weaken :
    (bs : Regexes) (lo hi lo' hi' : ℕ)
    → lo' ≤ lo
    → hi ≤ hi'
    → AreWithin bs lo hi
    → AreWithin bs lo' hi'
unfolding AreWithin
AreWithin-weaken nil lo hi lo' hi' a b h = tt
AreWithin-weaken (cons r bs) lo hi lo' hi' a b h =
    ((omega (arith, h.0.0), omega (arith, h.0.1), h.0.2), AreWithin-weaken bs lo hi lo' hi' a b h.1)

AreWithin-join_lists :
    (bs cs : Regexes) (lo hi : ℕ)
    → AreWithin bs lo hi
    → AreWithin cs lo hi
    → AreWithin (join_lists bs cs) lo hi
unfolding AreWithin
AreWithin-join_lists nil cs lo hi h k = k
AreWithin-join_lists (cons b bs) cs lo hi h k = (h.0, AreWithin-join_lists bs cs lo hi h.1 k)

count-join_lists : (bs cs : Regexes) → count (join_lists bs cs) ≡ count bs + count cs
count-join_lists nil cs = omega arith
count-join_lists (cons b bs) cs = omega (arith, count-join_lists bs cs)

with_pieces-IsSized :
    (re rhs : Regex) (ps qs : Regexes)
    → IsSizedKind (sequence ps) (min_size re) (max_size re)
    → IsSizedKind (sequence qs) (min_size rhs) (max_size rhs)
    → max_size re + max_size rhs < 2 ^ 64
    → IsSized (with_pieces re rhs (join_lists ps qs))
unfolding IsSized
with_pieces-IsSized re rhs ps qs h k fits =
    let (all, lo, hi) = AreSized-join_lists ps qs h.2 k.2 in
    (omega (arith, h.0, k.0), omega (arith, h.1, k.1), all)

one_piece :
    (rhs : Regex)
    → IsSized rhs
    → IsSizedKind (sequence (cons rhs nil)) (min_size rhs) (max_size rhs)
unfolding IsSized
one_piece rhs h = (omega arith, omega arith, (h, tt))

IsSized-if :
    (b : Bool) (q r : Regex) → IsSized q → (if b then some q else none) ≡ some r → IsSized r
IsSized-if true q r h e = subst IsSized (some-injective _ _ e) h
IsSized-if false q r h e = cc

join_sequence-IsSized :
    (re : Regex) (ps : Regexes) (rhs r : Regex)
    → IsSizedKind (sequence ps) (min_size re) (max_size re)
    → IsSized rhs
    → max_size re + max_size rhs < 2 ^ 64
    → join_sequence re ps rhs ≡ some r
    → IsSized r
unfolding join_sequence
join_sequence-IsSized re ps (node lo avg hi (sequence qs)) r h k fits e =
    IsSized-if _ _ r
      (with_pieces-IsSized re (node lo avg hi (sequence qs)) ps qs h (unfold IsSized in k) fits) e
join_sequence-IsSized re ps (node lo avg hi kind) r h k fits e =
    let rhs = node lo avg hi kind in
    IsSized-if _ _ r (with_pieces-IsSized re rhs ps (cons rhs nil) h (one_piece rhs k) fits) e

join-IsSized :
    (re rhs r : Regex)
    → IsSized re
    → IsSized rhs
    → max_size re + max_size rhs < 2 ^ 64
    → join re rhs ≡ some r
    → IsSized r
unfolding join IsSizedKind
join-IsSized (node lo avg hi (sequence ps)) rhs r h k fits e =
    join_sequence-IsSized (node lo avg hi (sequence ps)) ps rhs r (unfold IsSized in h) k fits e
join-IsSized (node lo avg hi kind) rhs r h k fits e =
    let re = node lo avg hi kind in
    join_sequence-IsSized (with_pieces empty_sequence re (cons re nil)) (cons re nil) rhs r
      (omega arith, omega arith, (unfold AreSized in (h, tt))) k (omega arith) e

alternative_add-IsSized :
    (re rhs r : Regex) → IsSized re → IsSized rhs → alternative_add re rhs ≡ some r → IsSized r
unfolding alternative_add IsSized
alternative_add-IsSized (node lo avg hi (alternative bs)) rhs r h k e =
    let lo' = if ltb (min_size rhs) lo then min_size rhs else lo in
    let hi' = if ltb hi (max_size rhs) then max_size rhs else hi in
    let below : (lo' ≤ lo) × (lo' ≤ min_size rhs) = ground arith in
    let above : (hi ≤ hi') × (max_size rhs ≤ hi') = ground arith in
    IsSized-if _ _ r
      (
        omega (arith, count-join_lists bs (cons rhs nil)),
        AreWithin-join_lists bs (cons rhs nil) lo' hi'
            (AreWithin-weaken bs lo hi lo' hi' below.0 above.0 h.1) ((below.1, above.1, k), tt),
      )
      e
alternative_add-IsSized (node lo avg hi (chars s)) rhs r h k e = cc
alternative_add-IsSized (node lo avg hi kind) rhs r h k e = cc

repeat_from-IsSized :
    (what : Regex) (start stop : ℕ)
    → IsSized what
    → start ≤ stop
    → stop < 2 ^ 32
    → max_size what * stop < 2 ^ 64
    → IsSized (repeat_from what start stop)
unfolding IsSized
repeat_from-IsSized what start stop h le small fits =
    let top : start + ((1 + stop + 2 ^ 32 - start) % 2 ^ 32 - 1) ≤ stop = omega arith in
    (
      omega arith,
      omega (
        arith,
        mul_mono (max_size what) (start + ((1 + stop + 2 ^ 32 - start) % 2 ^ 32 - 1)) stop top,
      ),
      omega (arith, top),
      h,
    )

repeat_of-IsSized :
    (what : Regex) (start stop : ℕ)
    → IsSized what
    → start < 2 ^ 32
    → stop < 2 ^ 32
    → max_size what * start < 2 ^ 64
    → max_size what * stop < 2 ^ 64
    → IsSized (repeat_of what start stop)
unfolding repeat_of
repeat_of-IsSized what start stop h a b c d = elim (Bool-cases (ltb stop start)) [
  | inl e ↦ rw e (repeat_from-IsSized what stop start h (ground arith) a c)
  | inr e ↦ rw e (repeat_from-IsSized what start stop h (ground arith) b d)
]

union_ranges-IsSized :
    (re rhs r : Regex)
    → IsSized re
    → union_size re rhs < 256
    → union_ranges re rhs ≡ some r
    → IsSized r
unfolding union_ranges IsSized
union_ranges-IsSized (node lo avg hi (oneof o)) (node lo' avg' hi' (oneof o')) r h fits e =
    subst IsSized (some-injective _ _ e) (
      h.0,
      h.1,
      omega (
        arith,
        h.2,
        fits,
        size-push_unused o (in_table o.table o.size) o' 0 o'.size (omega (arith, fits)),
      ),
    )
union_ranges-IsSized (node lo avg hi (oneof o)) (node lo' avg' hi' kind) r h fits e = cc
union_ranges-IsSized (node lo avg hi kind) rhs r h fits e = cc

range_from_string-IsSized :
    (s : Bytes) → s ≢ [] → distinct_in (λ i. false) s < 256 → IsSized (range_from_string s)
unfolding range_from_string IsSized
range_from_string-IsSized [] ne h = absurd (ne refl)
range_from_string-IsSized (c ∷ s) ne h = (
  omega arith,
  omega arith,
  omega (
    arith,
    size-push_new (push no_chars c) (λ i. if i == c then true else false) s (omega arith),
  ),
)

alternative_of-IsSized : (re : Regex) → IsSized re → IsSized (alternative_of re)
unfolding alternative_of IsSized
alternative_of-IsSized re h = (omega arith, ((omega arith, omega arith, h), tt))

-- What the functions of tcpkali_regex.c make has right sizes, in any order of calls, from any strings,
-- from ranges of 1 to 255 characters in their order, from sets of characters, not empty and at
-- most 255 different ones, and from unions of two classes with at most 255 characters together; as long as the largest sizes
-- that joins and repeats add or multiply to stay below 2 ^ 64, and the bounds of repeats are below
-- 2 ^ 32.
pub Built-IsSized : {re : Regex} → Built re → IsSized re
Built-IsSized (from_text s) = unfold string IsSized in (omega arith, omega arith)
Built-IsSized (from_range from to le lt) =
    unfold range IsSized in
    (
      omega arith,
      omega arith,
      omega (arith, size-push_range no_chars from (to + 1 - from) (omega arith)),
    )
Built-IsSized (from_set s ne lt) = range_from_string-IsSized s ne lt
Built-IsSized (from_union {re} {rhs} {r} a b fits e) =
    union_ranges-IsSized re rhs r (Built-IsSized a) fits e
Built-IsSized (from_join {re} {rhs} {r} a b fits e) =
    join-IsSized re rhs r (Built-IsSized a) (Built-IsSized b) fits e
Built-IsSized (from_branch {re} a) = alternative_of-IsSized re (Built-IsSized a)
Built-IsSized (from_branches {re} {rhs} {r} a b e) =
    alternative_add-IsSized re rhs r (Built-IsSized a) (Built-IsSized b) e
Built-IsSized (from_repeat {re} start stop a h k f g) =
    repeat_of-IsSized re start stop (Built-IsSized a) h k f g
