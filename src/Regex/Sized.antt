-- ===== src/Regex/Sized.antt =====
-- Making a string from a sized expression always succeeds and gives one of its strings.
use tcpkali.Base.{
  ℕ, zero, suc, ◌+◌, ◌-◌, ◌*◌, ◌%◌, ◌^◌, ◌≤◌, ◌<◌, ◌≡◌, refl, inl, inr, Bytes, [], ◌∷◌, ◌++◌,
  length, length-append, arith, ◌==◌, if◌then◌else◌, Bool-cases, le→not-ltb, le→leb, append-nil, ap,
  ◌∙◌,
}
use tcpkali.Regex.{
  OneOf, Regex, node, Kind, chars, oneof, sequence, alternative, repeat, Regexes, nil, cons,
  max_size, count,
}
use tcpkali.Regex.Eval.{
  Outcome, wrote, Step, behind, then_next, nothing_more, cycle, eval, eval_kind, eval_pieces,
  eval_branch,
}
use tcpkali.Regex.Matches.{
  Both, Times, Matches, MatchesKind, MatchesAll, MatchesAny, sum_max, IsSized, IsSizedKind,
  AreSized, AreWithin,
}

pub mul_mono : (m a b : ℕ) → a ≤ b → m * a ≤ m * b
mul_mono m a b h = grind arith

-- The result is a string of `P` of at most `m` bytes.
abbrev pub Made : {G : Type 0} → (Bytes → Type 0) → ℕ → Outcome × G → Type 0
Made {G} P m r = (out : Bytes) × (g : G) × (r ≡ (wrote out, g)) × P out × (length out ≤ m)

module _ {G : Type 0} (rand : G → ℕ → ℕ × G) where
  behind-Made :
      (P Q : Bytes → Type 0) (m n : ℕ) (a : Bytes) (r : Outcome × G)
      → P a
      → length a ≤ m
      → Made Q n r
      → Made (Both P Q) (m + n) (behind rand a r)
  behind-Made P Q m n a r h le (b, g, e, k, le') =
      (a ++ b, g, ap (behind rand a) e, (a, b, refl, h, k), omega (arith, length-append a b))

  then_next-Made :
      (P Q : Bytes → Type 0) (m n size : ℕ) (r : Outcome × G) (next : Step rand)
      → m + n ≤ size
      → Made P m r
      → ((size' : ℕ) (g : G) → n ≤ size' → Made Q n (next size' g))
      → Made (Both P Q) (m + n) (then_next rand r size next)
  then_next-Made P Q m n size r next fits (a, g, e, h, le) more = rw e (
      behind-Made P Q m n a (next (size - length a) g) h le
        (more (size - length a) g (omega arith)))

  cycle-Made :
      (P : Bytes → Type 0) (m n size : ℕ) (part : Step rand) (g : G)
      → m * n ≤ size
      → ((size' : ℕ) (g' : G) → m ≤ size' → Made P m (part size' g'))
      → Made (Times P n) (m * n) (cycle rand n part size g)
  unfolding cycle
  cycle-Made P m zero size part g fits h = ([], g, refl, refl, omega arith)
  cycle-Made P m (suc n) size part g fits h = rw (mul_suc m n) (
      then_next-Made P (Times P n) m (m * n) size (part size g) (cycle rand n part) (omega arith)
        (h size g (omega arith)) (λ size' g' fits'. cycle-Made P m n size' part g' fits' h))
    where
      mul_suc : (m n : ℕ) → m * suc n ≡ m + m * n
      mul_suc m n = omega arith

module _ {G : Type 0} (rand : G → ℕ → ℕ × G)
    (bounded : (g : G) (b : ℕ) → 0 < b → (rand g b).0 < b) where
  widen : (P : Bytes → Type 0) (m n : ℕ) (r : Outcome × G) → m ≤ n → Made P m r → Made P n r
  widen P m n r le (out, g, e, h, le') = (out, g, e, h, omega arith)

  nothing_more-Made :
      (P : Bytes → Type 0) (m size : ℕ) (r : Outcome × G)
      → Made P m r
      → Made P m (then_next rand r size (nothing_more rand))
  nothing_more-Made P m size r (out, g, e, h, le) = (out, g, rw e (rw append-nil refl), h, le)

  oneof-Made :
      (o : OneOf) (size : ℕ) (g : G)
      → 0 < o.size
      → 1 ≤ size
      → Made (MatchesKind (oneof o)) 1 (eval_kind rand (oneof o) size g)
  unfolding eval_kind MatchesKind
  oneof-Made o size g pos room = (
    o.table (rand g o.size).0 ∷ [],
    (rand g o.size).1,
    ground arith,
    ((rand g o.size).0, bounded g o.size pos, refl),
    omega arith,
  )

  module _ (P : Bytes → Type 0) (part : Step rand) (m least range hi size : ℕ)
      (fits : m * (least + (range - 1)) ≤ hi) (room : hi ≤ size)
      (small : least + (range - 1) < 2 ^ 32)
      (h : (size' : ℕ) (g' : G) → m ≤ size' → Made P m (part size' g')) where
    abbrev Repeated : Bytes → Type 0
    Repeated s = (n : ℕ) × (least ≤ n) × (n ≤ least + (range - 1)) × Times P n s

    turns-Made :
        (n : ℕ) (g : G)
        → least ≤ n
        → n ≤ least + (range - 1)
        → Made Repeated hi (cycle rand (n % 2 ^ 32) part size g)
    turns-Made n g lo hi' =
        let most : m * n ≤ m * (least + (range - 1)) = mul_mono m n (least + (range - 1)) hi' in
        let same : n % 2 ^ 32 ≡ n = omega arith in
        let (out, g', e, t, le) = cycle-Made rand P m n size part g (omega arith) h in
        (out, g', ap (λ k. cycle rand k part size g) same ∙ e, (n, lo, hi', t), omega arith)

    repeat-Made :
        (g : G)
        → Made Repeated hi (
            if range == 0
            then cycle rand (least % 2 ^ 32) part size g
            else cycle rand ((least + (rand g range).0) % 2 ^ 32) part size (rand g range).1)
    repeat-Made g = elim (Bool-cases (range == 0)) [
      | inl none_more ↦ rw none_more (turns-Made least g (omega arith) (omega arith))
      | inr some_more ↦
          let drawn = bounded g range (ground arith) in
          rw some_more
            (turns-Made (least + (rand g range).0) (rand g range).1 (omega arith) (omega arith))
    ]

  mutual
    unfolding eval eval_kind eval_pieces eval_branch Matches MatchesKind MatchesAll MatchesAny
        IsSized IsSizedKind AreSized AreWithin

    pub eval-Made :
        (re : Regex) (size : ℕ) (g : G)
        → IsSized re
        → max_size re ≤ size
        → Made (Matches re) (max_size re) (eval rand re size g)
    eval-Made (node lo avg hi k) size g h room =
        rw (le→not-ltb size hi room) (eval_kind-Made k lo hi size g h room)

    eval_kind-Made :
        (k : Kind) (lo hi size : ℕ) (g : G)
        → IsSizedKind k lo hi
        → hi ≤ size
        → Made (MatchesKind k) hi (eval_kind rand k size g)
    eval_kind-Made (chars s) lo hi size g h room =
        (s, g, rw (le→leb (length s) size (omega arith)) refl, refl, h.1)
    eval_kind-Made (oneof o) lo hi size g h room =
        widen (MatchesKind (oneof o)) 1 hi (eval_kind rand (oneof o) size g) h.1
          (oneof-Made o size g h.2 (omega arith))
    eval_kind-Made (sequence ps) lo hi size g h room =
        widen (MatchesAll ps) (sum_max ps) hi (eval_pieces rand ps size g) h.1
          (eval_pieces-Made ps size g h.2 (omega arith))
    eval_kind-Made (alternative bs) lo hi size g h room =
        nothing_more-Made (MatchesAny bs) hi size
          (eval_branch rand bs (rand g (count bs)).0 size (rand g (count bs)).1)
          (eval_branch-Made bs lo hi (rand g (count bs)).0 size (rand g (count bs)).1 h.1
            (bounded g (count bs) h.0) room)
    eval_kind-Made (repeat what least range) lo hi size g h room =
        repeat-Made (Matches what) (eval rand what) (max_size what) least range hi size h.1 room h.2
          (λ size' g' room'. eval-Made what size' g' h.3 room') g

    eval_pieces-Made :
        (ps : Regexes) (size : ℕ) (g : G)
        → AreSized ps
        → sum_max ps ≤ size
        → Made (MatchesAll ps) (sum_max ps) (eval_pieces rand ps size g)
    eval_pieces-Made nil size g h room = ([], g, refl, refl, omega arith)
    eval_pieces-Made (cons p ps) size g h room =
        then_next-Made rand (Matches p) (MatchesAll ps) (max_size p) (sum_max ps) size
          (eval rand p size g) (eval_pieces rand ps) room (eval-Made p size g h.0 (omega arith))
          (λ size' g' room'. eval_pieces-Made ps size' g' h.1 room')

    eval_branch-Made :
        (bs : Regexes) (lo hi i size : ℕ) (g : G)
        → AreWithin bs lo hi
        → i < count bs
        → hi ≤ size
        → Made (MatchesAny bs) hi (eval_branch rand bs i size g)
    eval_branch-Made nil lo hi i size g h lt room = elim lt [ ]
    eval_branch-Made (cons b bs) lo hi zero size g h lt room =
        let (out, g', e, m, le) = eval-Made b size g h.0.2 (omega arith) in
        (out, g', e, inl m, omega (arith, h.0.1))
    eval_branch-Made (cons b bs) lo hi (suc i) size g h lt room =
        let (out, g', e, m, le) = eval_branch-Made bs lo hi i size g h.1 (omega arith) room in
        (out, g', e, inr m, le)
