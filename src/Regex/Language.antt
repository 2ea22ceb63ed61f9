-- ===== src/Regex/Language.antt =====
-- The strings of what the functions of Build make, in terms of the strings of their arguments.
use tcpkali.Base.{
  ℕ, zero, suc, ◌+◌, ◌-◌, ◌≤◌, ◌<◌, ◌≡◌, ◌↔◌, refl, ◌⊎◌, inl, inr, Bool, true, false, Bytes, [],
  ◌∷◌, ◌++◌, append_assoc, append-nil, none, some, some-injective, subst, arith, ap, sym, ◌∙◌,
  if◌then◌else◌,
}
use tcpkali.Regex.{OneOf, Regex, node, chars, sequence, alternative, Regexes, nil, cons, join_lists}
use tcpkali.Regex.Build.{
  push, no_chars, push_range, range, join_sequence, join, with_pieces, empty_sequence,
  alternative_add,
}
use tcpkali.Regex.Built.{size-push_range}
use tcpkali.Regex.Matches.{Both, Matches, MatchesKind, MatchesAll, MatchesAny}

MatchesAll-join_lists :
    (ps qs : Regexes) (s : Bytes)
    → MatchesAll (join_lists ps qs) s ↔ Both (MatchesAll ps) (MatchesAll qs) s
unfolding MatchesAll
MatchesAll-join_lists nil qs s = (
  (λ m. ([], s, refl, refl, m)),
  λ (a, b, e, none_left, m). subst (MatchesAll qs) (sym (e ∙ ap (λ x. x ++ b) none_left)) m,
)
MatchesAll-join_lists (cons p ps) qs s = (
  λ (a, b, e, m, more).
      let (c, d, e', m', rest) = (MatchesAll-join_lists ps qs b).0 more in
      (a ++ c, d, e ∙ ap (λ x. a ++ x) e' ∙ sym (append_assoc a c d), (a, c, refl, m, m'), rest),
  λ (x, d, e, (a, c, e', m, m'), rest). (
    a,
    c ++ d,
    e ∙ ap (λ y. y ++ d) e' ∙ append_assoc a c d,
    m,
    (MatchesAll-join_lists ps qs (c ++ d)).1 (c, d, refl, m', rest),
  ),
)

MatchesAny-join_lists :
    (bs cs : Regexes) (s : Bytes)
    → MatchesAny (join_lists bs cs) s ↔ (MatchesAny bs s ⊎ MatchesAny cs s)
unfolding MatchesAny
MatchesAny-join_lists nil cs s = ((λ m. inr m), elim [ inl no_way ↦ absurd no_way | inr m ↦ m ])
MatchesAny-join_lists (cons b bs) cs s = (
  elim [
    | inl m ↦ inl (inl m)
    | inr m ↦ elim ((MatchesAny-join_lists bs cs s).0 m) [ inl k ↦ inl (inr k) | inr k ↦ inr k ]
  ],
  elim [
    | inl (inl m) ↦ inl m
    | inl (inr m) ↦ inr ((MatchesAny-join_lists bs cs s).1 (inl m))
    | inr m ↦ inr ((MatchesAny-join_lists bs cs s).1 (inr m))
  ],
)

iff_trans : {A B C : Type 0} → A ↔ B → B ↔ C → A ↔ C
iff_trans f g = (λ a. g.0 (f.0 a), λ c. f.1 (g.1 c))

iff_refl : (A : Type 0) → A ↔ A
iff_refl A = (λ a. a, λ a. a)

Both-iff :
    (P P' Q Q' : Bytes → Type 0) (s : Bytes)
    → ((x : Bytes) → P x ↔ P' x)
    → ((y : Bytes) → Q y ↔ Q' y)
    → Both P Q s ↔ Both P' Q' s
Both-iff P P' Q Q' s f g = (
  λ (a, b, e, p, q). (a, b, e, (f a).0 p, (g b).0 q),
  λ (a, b, e, p, q). (a, b, e, (f a).1 p, (g b).1 q),
)

MatchesAll-one : (re : Regex) (s : Bytes) → MatchesAll (cons re nil) s ↔ Matches re s
unfolding MatchesAll
MatchesAll-one re s = (
  λ (a, b, e, m, none_left).
      subst (Matches re) (sym (e ∙ ap (λ x. a ++ x) none_left ∙ append-nil a)) m,
  λ m. (s, [], sym (append-nil s), m, refl),
)

Matches-if :
    (b : Bool) (q r : Regex) (s : Bytes) (X : Type 0)
    → Matches q s ↔ X
    → (if b then some q else none) ≡ some r
    → Matches r s ↔ X
Matches-if true q r s X h e = subst (λ x. Matches x s ↔ X) (some-injective _ _ e) h
Matches-if false q r s X h e = cc

Matches-join_sequence :
    (re : Regex) (ps : Regexes) (rhs r : Regex) (s : Bytes)
    → join_sequence re ps rhs ≡ some r
    → Matches r s ↔ Both (MatchesAll ps) (Matches rhs) s
unfolding join_sequence Matches MatchesKind
Matches-join_sequence re ps (node lo avg hi (sequence qs)) r s e =
    Matches-if _ _ r s _ (MatchesAll-join_lists ps qs s) e
Matches-join_sequence re ps (node lo avg hi kind) r s e =
    let rhs = node lo avg hi kind in
    Matches-if _ _ r s _
      (iff_trans (MatchesAll-join_lists ps (cons rhs nil) s) (
        Both-iff (MatchesAll ps) (MatchesAll ps) (MatchesAll (cons rhs nil)) (Matches rhs) s
          (λ x. iff_refl (MatchesAll ps x)) (MatchesAll-one rhs)))
      e

-- Where joining two expressions succeeds, the strings of the result are exactly those of the first
-- with those of the second behind them.
pub Matches-join :
    (re rhs r : Regex) (s : Bytes)
    → join re rhs ≡ some r
    → Matches r s ↔ Both (Matches re) (Matches rhs) s
unfolding join Matches MatchesKind
Matches-join (node lo avg hi (sequence ps)) rhs r s e =
    Matches-join_sequence (node lo avg hi (sequence ps)) ps rhs r s e
Matches-join (node lo avg hi kind) rhs r s e =
    let re = node lo avg hi kind in
    iff_trans
      (Matches-join_sequence (with_pieces empty_sequence re (cons re nil)) (cons re nil) rhs r s e)
      (Both-iff (MatchesAll (cons re nil)) (Matches re) (Matches rhs) (Matches rhs) s
        (MatchesAll-one re) (λ y. iff_refl (Matches rhs y)))

-- Where adding a branch succeeds, the strings of the result are exactly those of the branches
-- before and those of the new one.
pub Matches-alternative_add :
    (re rhs r : Regex) (s : Bytes)
    → alternative_add re rhs ≡ some r
    → Matches r s ↔ (Matches re s ⊎ Matches rhs s)
unfolding alternative_add Matches MatchesKind MatchesAny
Matches-alternative_add (node lo avg hi (alternative bs)) rhs r s e =
    Matches-if _ _ r s _
      (iff_trans (MatchesAny-join_lists bs (cons rhs nil) s) (
        elim [ inl m ↦ inl m | inr (inl m) ↦ inr m | inr (inr no_way) ↦ absurd no_way ],
        elim [ inl m ↦ inl m | inr m ↦ inr (inl m) ],
      ))
      e
Matches-alternative_add (node lo avg hi (chars t)) rhs r s e = cc
Matches-alternative_add (node lo avg hi kind) rhs r s e = cc

table-push_range :
    (o : OneOf) (first i n k : ℕ)
    → o.size + n < 256
    → i ≡ first + o.size
    → ((x : ℕ) → x < o.size → o.table x ≡ first + x)
    → k < o.size + n
    → (push_range o i n).table k ≡ first + k
unfolding push_range
table-push_range o first i zero k h e old lt = old k (omega arith)
table-push_range o first i (suc n) k h e old lt =
    table-push_range (push o i) first (i + 1) n k (omega arith) (omega arith)
      (λ x below. ground (arith, old x)) (omega arith)

-- The strings of a character range are its single characters, if the range has at most 255.
pub Matches-range :
    (from to : ℕ) (s : Bytes)
    → from ≤ to
    → to < from + 255
    → Matches (range from to) s ↔ ((c : ℕ) × (from ≤ c) × (c ≤ to) × (s ≡ c ∷ []))
unfolding Matches MatchesKind range
Matches-range from to s le lt =
    let n = to + 1 - from in
    let o = push_range no_chars from n in
    let size : o.size ≡ n = omega (arith, size-push_range no_chars from n (omega arith)) in
    let entry : (k : ℕ) → k < n → o.table k ≡ from + k = λ k below.
      table-push_range no_chars from from n k (omega arith) (omega arith)
        (λ x none_there. elim none_there [ ]) (omega arith) in
    (
      λ (i, below, e).
          (from + i, omega arith, omega arith, e ∙ ap (λ c. c ∷ []) (entry i (omega arith))),
      λ (c, lo, hi, e). (
        c - from,
        omega arith,
        e ∙ ap (λ x. x ∷ []) (omega (arith, entry (c - from) (omega arith))),
      ),
    )
