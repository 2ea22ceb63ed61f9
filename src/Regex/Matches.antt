-- ===== src/Regex/Matches.antt =====
-- The strings of a regular expression, and when its stored sizes are right.
use tcpkali.Base.{
  ℕ, zero, suc, ◌+◌, ◌-◌, ◌*◌, ◌^◌, ◌≤◌, ◌<◌, ◌≡◌, ◌⊎◌, Bytes, [], ◌∷◌, ◌++◌, length,
}
use tcpkali.Regex.{
  Regex, node, Kind, chars, oneof, sequence, alternative, repeat, Regexes, nil, cons, min_size,
  max_size, count,
}

abbrev pub Both : (Bytes → Type 0) → (Bytes → Type 0) → Bytes → Type 0
Both P Q s = (a : Bytes) × (b : Bytes) × (s ≡ a ++ b) × P a × Q b

-- `n` strings of `P`, one behind the other.
abbrev pub Times : (Bytes → Type 0) → ℕ → Bytes → Type 0
Times P zero s = s ≡ []
Times P (suc n) s = Both P (Times P n) s

-- A string is one of the expression's: that text; one of the characters; a string of each piece in
-- turn; a string of one of the branches; or `least` to `least + range - 1` strings of the
-- repeated part (`least` of them where the range is 0).
unfoldable mutual
  pub Matches : Regex → Bytes → Type 0
  Matches (node lo avg hi k) s = MatchesKind k s

  pub MatchesKind : Kind → Bytes → Type 0
  MatchesKind (chars t) s = s ≡ t
  MatchesKind (oneof o) s = (i : ℕ) × (i < o.size) × (s ≡ o.table i ∷ [])
  MatchesKind (sequence ps) s = MatchesAll ps s
  MatchesKind (alternative bs) s = MatchesAny bs s
  MatchesKind (repeat what least range) s =
      (n : ℕ) × (least ≤ n) × (n ≤ least + (range - 1)) × Times (Matches what) n s

  pub MatchesAll : Regexes → Bytes → Type 0
  MatchesAll nil s = s ≡ []
  MatchesAll (cons p ps) s = Both (Matches p) (MatchesAll ps) s

  pub MatchesAny : Regexes → Bytes → Type 0
  MatchesAny nil s = ⊥
  MatchesAny (cons b bs) s = Matches b s ⊎ MatchesAny bs s

abbrev pub sum_min : Regexes → ℕ
sum_min nil = 0
sum_min (cons r rs) = min_size r + sum_min rs

abbrev pub sum_max : Regexes → ℕ
sum_max nil = 0
sum_max (cons r rs) = max_size r + sum_max rs

-- The smallest and the largest size are bounds, here and in every part, classes and alternatives
-- are not empty, and the count of a repeat does not wrap.
unfoldable mutual
  pub IsSized : Regex → Type 0
  IsSized (node lo avg hi k) = IsSizedKind k lo hi

  pub IsSizedKind : Kind → ℕ → ℕ → Type 0
  IsSizedKind (chars s) lo hi = (lo ≤ length s) × (length s ≤ hi)
  IsSizedKind (oneof o) lo hi = (lo ≤ 1) × (1 ≤ hi) × (0 < o.size)
  IsSizedKind (sequence ps) lo hi = (lo ≤ sum_min ps) × (sum_max ps ≤ hi) × AreSized ps
  IsSizedKind (alternative bs) lo hi = (0 < count bs) × AreWithin bs lo hi
  IsSizedKind (repeat what least range) lo hi =
      (lo ≤ min_size what * least)
      × (max_size what * (least + (range - 1)) ≤ hi)
      × (least + (range - 1) < 2 ^ 32)
      × IsSized what

  pub AreSized : Regexes → Type 0
  AreSized nil = Unit
  AreSized (cons p ps) = IsSized p × AreSized ps

  pub AreWithin : Regexes → ℕ → ℕ → Type 0
  AreWithin nil lo hi = Unit
  AreWithin (cons b bs) lo hi =
      ((lo ≤ min_size b) × (max_size b ≤ hi) × IsSized b) × AreWithin bs lo hi
