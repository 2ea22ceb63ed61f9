-- ===== src/Regex/Sizes.antt =====
-- Every string of a sized expression has a size between the smallest and the largest one.
use tcpkali.Base.{
  ℕ, zero, suc, ◌+◌, ◌-◌, ◌*◌, ◌≤◌, ◌<◌, ◌≡◌, inl, inr, Bytes, length, length-append, arith, ap,
}
use tcpkali.Regex.{
  Regex, node, Kind, chars, oneof, sequence, alternative, repeat, Regexes, nil, cons, min_size,
  max_size,
}
use tcpkali.Regex.Eval.{wrote, refused, eval}
use tcpkali.Regex.Matches.{
  Both, Times, Matches, MatchesKind, MatchesAll, MatchesAny, sum_min, sum_max, IsSized, IsSizedKind,
  AreSized, AreWithin,
}
use tcpkali.Regex.Sized.{Made, eval-Made, mul_mono}

abbrev pub Between : ℕ → ℕ → Bytes → Type 0
Between lo hi s = (lo ≤ length s) × (length s ≤ hi)

Both-Between :
    (P Q : Bytes → Type 0) (a b c d : ℕ) (s : Bytes)
    → ((x : Bytes) → P x → Between a b x)
    → ((y : Bytes) → Q y → Between c d y)
    → Both P Q s
    → Between (a + c) (b + d) s
Both-Between P Q a b c d s h k (x, y, e, p, q) =
    omega (arith, ap length e, length-append x y, h x p, k y q)

Times-Between :
    (P : Bytes → Type 0) (a b n : ℕ) (s : Bytes)
    → ((x : Bytes) → P x → Between a b x)
    → Times P n s
    → Between (a * n) (b * n) s
Times-Between P a b zero s h t = omega (arith, ap length t)
Times-Between P a b (suc n) s h t =
    let both =
      Both-Between P (Times P n) a b (a * n) (b * n) s h (λ y q. Times-Between P a b n y h q) t in
    omega (arith, both)

mutual
  unfolding Matches MatchesKind MatchesAll MatchesAny IsSized IsSizedKind AreSized AreWithin

  pub Matches-Between :
      (re : Regex) (s : Bytes) → IsSized re → Matches re s → Between (min_size re) (max_size re) s
  Matches-Between (node lo avg hi k) s h m = MatchesKind-Between k lo hi s h m

  MatchesKind-Between :
      (k : Kind) (lo hi : ℕ) (s : Bytes) → IsSizedKind k lo hi → MatchesKind k s → Between lo hi s
  MatchesKind-Between (chars t) lo hi s h m = omega (arith, ap length m)
  MatchesKind-Between (oneof o) lo hi s h (i, lt, e) = omega (arith, ap length e)
  MatchesKind-Between (sequence ps) lo hi s h m = omega (arith, MatchesAll-Between ps s h.2 m)
  MatchesKind-Between (alternative bs) lo hi s h m = MatchesAny-Between bs lo hi s h.1 m
  MatchesKind-Between (repeat what least range) lo hi s h (n, above, below, t) = omega (
    arith,
    Times-Between (Matches what) (min_size what) (max_size what) n s
        (λ x p. Matches-Between what x h.3 p) t,
    mul_mono (min_size what) least n above,
    mul_mono (max_size what) n (least + (range - 1)) below,
  )

  MatchesAll-Between :
      (ps : Regexes) (s : Bytes)
      → AreSized ps
      → MatchesAll ps s
      → Between (sum_min ps) (sum_max ps) s
  MatchesAll-Between nil s h m = omega (arith, ap length m)
  MatchesAll-Between (cons p ps) s h m =
      Both-Between (Matches p) (MatchesAll ps) (min_size p) (max_size p) (sum_min ps) (sum_max ps) s
        (λ x k. Matches-Between p x h.0 k) (λ y k. MatchesAll-Between ps y h.1 k) m

  MatchesAny-Between :
      (bs : Regexes) (lo hi : ℕ) (s : Bytes)
      → AreWithin bs lo hi
      → MatchesAny bs s
      → Between lo hi s
  MatchesAny-Between nil lo hi s h m = absurd m
  MatchesAny-Between (cons b bs) lo hi s h (inl m) =
      omega (arith, Matches-Between b s h.0.2 m, h.0.0, h.0.1)
  MatchesAny-Between (cons b bs) lo hi s h (inr m) = MatchesAny-Between bs lo hi s h.1 m

refused_of_small :
    {G : Type 0} (rand : G → ℕ → ℕ × G) (re : Regex) (size : ℕ) (g : G)
    → size < max_size re
    → eval rand re size g ≡ (refused, g)
unfolding eval
refused_of_small rand (node lo avg hi k) size g h = ground arith

-- Given a generator that stays below its bound, a sized expression and a buffer of its largest size
-- give one of its strings, with a size from the smallest to the largest one; a smaller buffer is
-- refused before anything is drawn.
pub eval-Matches :
    {G : Type 0} (rand : G → ℕ → ℕ × G)
    → ((g : G) (b : ℕ) → 0 < b → (rand g b).0 < b)
    → (re : Regex) (size : ℕ) (g : G) → IsSized re
    → (max_size re ≤ size
        → (out : Bytes) × (g' : G) × (eval rand re size g ≡ (wrote out, g'))
          × Matches re out
          × (min_size re ≤ length out)
          × (length out ≤ max_size re))
      × (size < max_size re → eval rand re size g ≡ (refused, g))
eval-Matches {G} rand bounded re size g h = (
  λ room. whole (eval-Made rand bounded re size g h room),
  λ small. refused_of_small rand re size g small,
)
  where
    whole :
        Made (Matches re) (max_size re) (eval rand re size g)
        → (out : Bytes) × (g' : G) × (eval rand re size g ≡ (wrote out, g'))
          × Matches re out
          × (min_size re ≤ length out)
          × (length out ≤ max_size re)
    whole (out, g', e, m, le) = (out, g', e, m, (Matches-Between re out h m).0, le)
