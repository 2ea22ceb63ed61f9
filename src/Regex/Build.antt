-- ===== src/Regex/Build.antt =====
-- The functions of src/tcpkali_regex.c that make a regular expression. `size_t` has 64 bits and
-- `unsigned` has 32; `none` is a failed assertion on the number of elements.
use tcpkali.Base.{
  ℕ, zero, suc, ◌+◌, ◌-◌, ◌*◌, ◌/◌, ◌%◌, ◌^◌, Bool, true, false, Bytes, [], ◌∷◌, Option, none, some,
  ltb, ◌==◌, if◌then◌else◌, length,
}
use tcpkali.Regex.{
  OneOf, Regex, node, chars, oneof, sequence, alternative, repeat, Regexes, nil, cons, elements,
  min_size, avg_size, max_size, count, join_lists,
}

abbrev pub add_size : ℕ → ℕ → ℕ
add_size a b = (a + b) % 2 ^ 64

abbrev pub mul_size : ℕ → ℕ → ℕ
mul_size a b = (a * b) % 2 ^ 64

unfoldable pub string : Bytes → Regex
string s = node (length s) (length s) (length s) (chars s)

-- `re->oneof.table[re->oneof.size++] = c`, where `size` is an `unsigned char`.
abbrev pub push : OneOf → ℕ → OneOf
push o c = record { size = (o.size + 1) % 256; table = λ i. if i == o.size then c else o.table i }

abbrev pub no_chars : OneOf
no_chars = record { size = 0; table = λ i. 0 }

-- `steps` values from `i` up.
unfoldable pub push_range : OneOf → ℕ → ℕ → OneOf
push_range o i zero = o
push_range o i (suc steps) = push_range (push o i) (i + 1) steps

unfoldable pub range : ℕ → ℕ → Regex
unfolding push_range
range from to = node 1 1 1 (oneof (push_range no_chars from (to + 1 - from)))

-- `used[c]` says whether the character `c` was met.
unfoldable pub push_new : OneOf → (ℕ → Bool) → Bytes → OneOf
push_new o used [] = o
push_new o used (c ∷ cs) =
    push_new (if used c then o else push o c) (λ i. if i == c then true else used i) cs

unfoldable pub range_from_string : Bytes → Regex
unfolding push_new
range_from_string s = node 1 1 1 (oneof (push_new no_chars (λ i. false) s))

-- Whether `c` is one of the first `n` entries of the table.
unfoldable pub in_table : (ℕ → ℕ) → ℕ → ℕ → Bool
in_table table zero c = false
in_table table (suc n) c = if table n == c then true else in_table table n c

-- The entries of `rhs` from `i` on that are not in the first table.
unfoldable pub push_unused : OneOf → (ℕ → Bool) → OneOf → ℕ → ℕ → OneOf
push_unused o used rhs i zero = o
push_unused o used rhs i (suc steps) =
    push_unused (if used (rhs.table i) then o else push o (rhs.table i)) used rhs (i + 1) steps

-- `none` where an assertion on the kind fails.
unfoldable pub union_ranges : Regex → Regex → Option Regex
unfolding in_table push_unused
union_ranges (node lo avg hi (oneof o)) (node lo' avg' hi' (oneof o')) =
    some (node lo avg hi (oneof (push_unused o (in_table o.table o.size) o' 0 o'.size)))
union_ranges re rhs = none

abbrev pub empty_sequence : Regex
empty_sequence = node 0 0 0 (sequence nil)

abbrev pub with_pieces : Regex → Regex → Regexes → Regex
with_pieces re rhs ps =
    node (add_size (min_size re) (min_size rhs)) (add_size (avg_size re) (avg_size rhs))
      (add_size (max_size re) (max_size rhs)) (sequence ps)

-- The cases of `tregex_join` where `re` is a sequence with the pieces `ps`.
unfoldable pub join_sequence : Regex → Regexes → Regex → Option Regex
join_sequence re ps (node lo avg hi (sequence qs)) =
    if ltb (count ps + count qs) elements
    then some (with_pieces re (node lo avg hi (sequence qs)) (join_lists ps qs))
    else none
join_sequence re ps rhs =
    if ltb (count ps) elements
    then some (with_pieces re rhs (join_lists ps (cons rhs nil)))
    else none

-- Where `re` is no sequence both are joined to an empty one in turn.
unfoldable pub join : Regex → Regex → Option Regex
unfolding join_sequence
join (node lo avg hi (sequence ps)) rhs = join_sequence (node lo avg hi (sequence ps)) ps rhs
join re rhs = join_sequence (with_pieces empty_sequence re (cons re nil)) (cons re nil) rhs

unfoldable pub alternative_of : Regex → Regex
alternative_of rhs = node (min_size rhs) (avg_size rhs) (max_size rhs) (alternative (cons rhs nil))

abbrev pub sum_avg : Regexes → ℕ → ℕ
sum_avg nil acc = acc
sum_avg (cons r rs) acc = sum_avg rs (add_size acc (avg_size r))

unfoldable pub alternative_add : Regex → Regex → Option Regex
alternative_add (node lo avg hi (alternative bs)) rhs =
    let all = join_lists bs (cons rhs nil) in
    if ltb (count bs) elements
    then some (
        node (if ltb (min_size rhs) lo then min_size rhs else lo) (sum_avg all 0 / count all)
          (if ltb hi (max_size rhs) then max_size rhs else hi) (alternative all))
    else none
alternative_add re rhs = none

abbrev pub repeat_from : Regex → ℕ → ℕ → Regex
repeat_from what start stop =
    node (mul_size (min_size what) start) (mul_size (avg_size what) ((stop + start) % 2 ^ 32) / 2)
      (mul_size (max_size what) stop) (repeat what start ((1 + stop + 2 ^ 32 - start) % 2 ^ 32))

unfoldable pub repeat_of : Regex → ℕ → ℕ → Regex
repeat_of what start stop =
    if ltb stop start then repeat_from what stop start else repeat_from what start stop
