-- ===== src/Transport/Collect/Order.antt =====
-- Adding an expression keeps a collection well-formed, and its parts in their order.
use tcpkali.Base.{
  ℕ, suc, ◌+◌, ◌≤◌, ◌≡◌, refl, sym, ap, ap₂, ◌∙◌, ◌⊎◌, inl, inr, true, Bytes, List, [], ◌∷◌, ◌++◌,
  append-nil, append_assoc, Option, none, some, length, length-append, All, All-append, All-mono,
  ltb, if◌then◌else◌, Bool-cases, arith,
}
use tcpkali.Expr.{Expr, Scope, rank, scope}
use tcpkali.Expr.Build.Split.{leaves, leaves_of, is_frame, NoFrame}
use tcpkali.Transport.{Purpose, Flags, Snippet, Collection}
use tcpkali.Transport.Collect.{count, prefix_flags, frame_flags, plain_flags, append_expr}

-- `sort_index` counts the snippets from `n` on.
abbrev pub IsIndexed : ℕ → List Snippet → Type 0
IsIndexed n [] = Unit
IsIndexed n (s ∷ ss) = (s.sort_index ≡ n) × IsIndexed (suc n) ss

-- A snippet has data and the flags for it, or an expression with no frame in it, which is to be
-- framed unless it is a header, or a ready frame, which is not to be framed again. No expression is
-- more dynamic than `most`.
abbrev pub IsMadeOf : ℕ → Option Expr → Flags → Bytes → Type 0
IsMadeOf most none f s = f ≡ plain_flags f.purpose
IsMadeOf most (some e) f s =
    (s ≡ [])
    × (rank (scope e) ≤ most)
    × (((f ≡ prefix_flags f.purpose) × NoFrame (leaves e))
        ⊎ ((f ≡ frame_flags f.purpose) × (is_frame e ≡ true)))

abbrev pub IsMade : ℕ → Snippet → Type 0
IsMade most s = IsMadeOf most s.expr s.flags s.bytes

abbrev pub IsWell : Collection → Type 0
IsWell mc =
    IsIndexed 0 mc.snippets
    × All (IsMade (rank mc.most_dynamic_expression)) mc.snippets
    × (count mc ≤ mc.snippets_size)

abbrev pub leaves_in : List Snippet → List Expr
leaves_in [] = []
leaves_in (s ∷ ss) = leaves_of s.expr ++ leaves_in ss

-- Snippets with these leaves were added behind those that were there.
abbrev pub Extends : Collection → Collection → List Expr → Purpose → Type 0
Extends mc mc' es kind =
    (new : List Snippet) × (mc'.snippets ≡ mc.snippets ++ new)
    × (leaves_in new ≡ es)
    × All (λ s. s.flags.purpose ≡ kind) new

pub IsIndexed-append :
    (n : ℕ) (xs : List Snippet) (y : Snippet)
    → IsIndexed n xs
    → y.sort_index ≡ n + length xs
    → IsIndexed n (xs ++ (y ∷ []))
IsIndexed-append n [] y h e = (omega (arith, e), tt)
IsIndexed-append n (x ∷ xs) y h e = (h.0, IsIndexed-append (suc n) xs y h.1 (omega (arith, e)))

leaves_in-append : (xs ys : List Snippet) → leaves_in (xs ++ ys) ≡ leaves_in xs ++ leaves_in ys
leaves_in-append [] ys = refl
leaves_in-append (x ∷ xs) ys =
    ap (λ l. leaves_of x.expr ++ l) (leaves_in-append xs ys)
    ∙ sym (append_assoc (leaves_of x.expr) (leaves_in xs) (leaves_in ys))

pub Extends-trans :
    (a b c : Collection) (es fs : List Expr) (kind : Purpose)
    → Extends a b es kind
    → Extends b c fs kind
    → Extends a c (es ++ fs) kind
Extends-trans a b c es fs kind (new, e, l, p) (new', e', l', p') = (
  new ++ new',
  e' ∙ ap (λ s. s ++ new') e ∙ append_assoc a.snippets new new',
  leaves_in-append new new' ∙ ap₂ (λ x y. x ++ y) l l',
  All-append _ new new' p p',
)

pub IsMade-mono : (m n : ℕ) → m ≤ n → (s : Snippet) → IsMade m s → IsMade n s
IsMade-mono m n le s h = by_expr s.expr h
  where
    by_expr : (e : Option Expr) → IsMadeOf m e s.flags s.bytes → IsMadeOf n e s.flags s.bytes
    by_expr none h = h
    by_expr (some e) h = (h.0, omega (arith, h.1), h.2)

wider_scope :
    (a b : Scope)
    → (rank a ≤ rank (if ltb (rank a) (rank b) then b else a))
      × (rank b ≤ rank (if ltb (rank a) (rank b) then b else a))
wider_scope a b = elim (Bool-cases (ltb (rank a) (rank b))) [
  | inl e ↦ rw e (ground arith)
  | inr e ↦ rw e (ground arith)
]

-- What makes an expression right for the flags.
abbrev pub Suits : Flags → Option Expr → Type 0
Suits f none = Unit
Suits f (some e) =
    ((f ≡ prefix_flags f.purpose) × NoFrame (leaves e))
    ⊎ ((f ≡ frame_flags f.purpose) × (is_frame e ≡ true))

pub append_expr-IsWell :
    (mc : Collection) (f : Flags) (e : Option Expr) (room : ℕ)
    → IsIndexed 0 mc.snippets
    → All (IsMade (rank mc.most_dynamic_expression)) mc.snippets
    → count mc + suc room ≤ mc.snippets_size
    → Suits f e
    → IsIndexed 0 (append_expr mc f e).snippets
      × All
          (IsMade (rank (append_expr mc f e).most_dynamic_expression))
          (append_expr mc f e).snippets
      × (count (append_expr mc f e) + room ≤ (append_expr mc f e).snippets_size)
append_expr-IsWell mc f none room h k space suits = (h, k, omega arith)
append_expr-IsWell mc f (some e) room h k space suits = (
  IsIndexed-append 0 mc.snippets _ h (omega arith),
  All-append (IsMade (rank (append_expr mc f (some e)).most_dynamic_expression)) mc.snippets _
      (All-mono _ _ mc.snippets (IsMade-mono _ _ wider.0) k) ((refl, wider.1, suits), tt),
  omega (arith, length-append mc.snippets (new ∷ [])),
)
  where
    new : Snippet
    new = record { bytes = []; expr = some e; flags = f; sort_index = count mc }

    wider :
        (rank mc.most_dynamic_expression ≤ rank (append_expr mc f (some e)).most_dynamic_expression)
        × (rank (scope e) ≤ rank (append_expr mc f (some e)).most_dynamic_expression)
    wider = wider_scope mc.most_dynamic_expression (scope e)

pub append_expr-Extends :
    (mc : Collection) (f : Flags) (e : Option Expr)
    → Extends mc (append_expr mc f e) (leaves_of e) f.purpose
append_expr-Extends mc f none = ([], sym (append-nil mc.snippets), refl, tt)
append_expr-Extends mc f (some e) = (
  (record { bytes = []; expr = some e; flags = f; sort_index = count mc }) ∷ [],
  refl,
  append-nil (leaves e),
  (refl, tt),
)
