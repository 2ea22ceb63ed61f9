-- ===== src/Expr/Build/Split.antt =====
-- The expressions between which there is no concatenation, and how a split keeps their order.
use tcpkali.Base.{
  ◌≡◌, refl, sym, ap, ap₂, subst, ◌∙◌, ◌⊎◌, inl, inr, Bool, true, false, List, [], ◌∷◌, ◌++◌,
  Option, none, some, append-nil, append_assoc,
}
use tcpkali.Expr.{
  Meta, Expr, expr, text, raw, ws_frame, concat, modulo, connection_ptr, connection_uid, regex,
  message_marker,
}
use tcpkali.Expr.Build.{
  concat_expressions, EswResult, only_prefix, only_frame, split_concat, split_by_websocket_frame,
}

abbrev pub leaves : Expr → List Expr
leaves (expr m (concat a b)) = leaves a ++ leaves b
leaves e = e ∷ []

abbrev pub leaves_of : Option Expr → List Expr
leaves_of none = []
leaves_of (some e) = leaves e

abbrev pub is_frame : Expr → Bool
is_frame (expr m (ws_frame f)) = true
is_frame (expr m (raw e)) = true
is_frame e = false

abbrev pub NoFrame : List Expr → Type 0
NoFrame [] = Unit
NoFrame (e ∷ es) = (is_frame e ≡ false) × NoFrame es

-- The three parts have the expression's leaves in order, the first part none that is a frame, and
-- the middle one is one such leaf; without a middle part the first one is the expression.
abbrev pub Splits : Expr → EswResult → Type 0
Splits e s =
    (leaves_of s.esw_prefix ++ (leaves_of s.esw_websocket_frame ++ leaves_of s.esw_remainder)
      ≡ leaves e)
    × NoFrame (leaves_of s.esw_prefix)
    × (((s.esw_websocket_frame ≡ none) × (s.esw_prefix ≡ some e) × (s.esw_remainder ≡ none))
        ⊎ ((f : Expr) × (s.esw_websocket_frame ≡ some f) × (is_frame f ≡ true)))

leaves-concat_expressions :
    (a b : Option Expr) → leaves_of (concat_expressions a b) ≡ leaves_of a ++ leaves_of b
unfolding concat_expressions
leaves-concat_expressions (some a) (some b) = refl
leaves-concat_expressions (some a) none = sym (append-nil (leaves a))
leaves-concat_expressions none b = refl

NoFrame-append : (es fs : List Expr) → NoFrame es → NoFrame fs → NoFrame (es ++ fs)
NoFrame-append [] fs h k = k
NoFrame-append (e ∷ es) fs h k = (h.0, NoFrame-append es fs h.1 k)

outer_shuffle :
    {A : Type 0} (p f r p' q : List A) → p ++ (f ++ ((r ++ p') ++ q)) ≡ (p ++ (f ++ r)) ++ (p' ++ q)
outer_shuffle p f r p' q = simp append_assoc

-- What the case of a concatenation gives.
abbrev Joined : Expr → EswResult → EswResult → Type 0
Joined e s s' =
    (r : EswResult) × (split_concat e s s' s.esw_websocket_frame s'.esw_websocket_frame ≡ some r)
    × Splits e r

module _ (m : Meta) (a b : Expr) (s s' : EswResult) (h : Splits a s) (k : Splits b s') where
  no_frames :
      s.esw_websocket_frame ≡ none
      → s.esw_prefix ≡ some a
      → s'.esw_websocket_frame ≡ none
      → s'.esw_prefix ≡ some b
      → Joined (expr m (concat a b)) s s'
  no_frames f p f' p' = (
    only_prefix (expr m (concat a b)),
    rw f (rw f' refl),
    (
      append-nil (leaves a ++ leaves b),
      NoFrame-append (leaves a) (leaves b) (subst (λ x. NoFrame (leaves_of x)) p h.1)
          (subst (λ x. NoFrame (leaves_of x)) p' k.1),
      inl (refl, refl, refl),
    ),
  )

  frame_in_first :
      (f : Expr)
      → s.esw_websocket_frame ≡ some f
      → is_frame f ≡ true
      → Joined (expr m (concat a b)) s s'
  frame_in_first f e framed =
      let rest =
        concat_expressions (concat_expressions s.esw_remainder s'.esw_prefix)
          (concat_expressions s'.esw_websocket_frame s'.esw_remainder) in
      let split : leaves_of rest
          ≡ (leaves_of s.esw_remainder ++ leaves_of s'.esw_prefix)
            ++ (leaves_of s'.esw_websocket_frame ++ leaves_of s'.esw_remainder) =
        leaves-concat_expressions (concat_expressions s.esw_remainder s'.esw_prefix)
          (concat_expressions s'.esw_websocket_frame s'.esw_remainder)
        ∙ ap₂ (λ x y. x ++ y) (leaves-concat_expressions s.esw_remainder s'.esw_prefix)
            (leaves-concat_expressions s'.esw_websocket_frame s'.esw_remainder) in
      (
        record { esw_prefix = s.esw_prefix; esw_websocket_frame = some f; esw_remainder = rest },
        rw e refl,
        (
          ap (λ x. leaves_of s.esw_prefix ++ (leaves f ++ x)) split
              ∙ outer_shuffle (leaves_of s.esw_prefix) (leaves f) (leaves_of s.esw_remainder)
                  (leaves_of s'.esw_prefix)
                  (leaves_of s'.esw_websocket_frame ++ leaves_of s'.esw_remainder)
              ∙ ap₂ (λ x y. x ++ y)
                  (ap (λ x. leaves_of s.esw_prefix ++ (leaves_of x ++ leaves_of s.esw_remainder))
                      (sym e)
                    ∙ h.0)
                  k.0,
          h.1,
          inr (f, refl, framed),
        ),
      )

  frame_in_second :
      (f : Expr)
      → s.esw_websocket_frame ≡ none
      → s.esw_prefix ≡ some a
      → s.esw_remainder ≡ none
      → s'.esw_websocket_frame ≡ some f
      → is_frame f ≡ true
      → Joined (expr m (concat a b)) s s'
  frame_in_second f e p r e' framed =
      let front = concat_expressions (some a) s'.esw_prefix in
      let front_leaves : leaves_of front ≡ leaves a ++ leaves_of s'.esw_prefix =
        leaves-concat_expressions (some a) s'.esw_prefix in
      (
        record {
          esw_prefix = front;
          esw_websocket_frame = some f;
          esw_remainder = s'.esw_remainder;
        },
        rw e (rw e' (rw p (rw r refl))),
        (
          ap (λ x. x ++ (leaves f ++ leaves_of s'.esw_remainder)) front_leaves
              ∙ append_assoc (leaves a) (leaves_of s'.esw_prefix)
                  (leaves f ++ leaves_of s'.esw_remainder)
              ∙ ap (λ x. leaves a ++ x)
                  (ap (λ x. leaves_of s'.esw_prefix ++ (leaves_of x ++ leaves_of s'.esw_remainder))
                      (sym e')
                    ∙ k.0),
          subst NoFrame (sym front_leaves) (
              NoFrame-append (leaves a) (leaves_of s'.esw_prefix)
                (subst (λ x. NoFrame (leaves_of x)) p h.1) k.1),
          inr (f, refl, framed),
        ),
      )

  split_concat-Splits : Joined (expr m (concat a b)) s s'
  split_concat-Splits = elim h.2 [
    | inr (f, e, framed) ↦ frame_in_first f e framed
    | inl (e, p, r) ↦ elim k.2 [
      | inl (e', p', r') ↦ no_frames e p e' p'
      | inr (f, e', framed) ↦ frame_in_second f e p r e' framed
    ]
  ]

plain : (e : Expr) → leaves e ≡ e ∷ [] → is_frame e ≡ false → Splits e (only_prefix e)
plain e l f = (append-nil (leaves e), subst NoFrame (sym l) (f, tt), inl (refl, refl, refl))

framed : (e : Expr) → is_frame e ≡ true → Splits e (only_frame e)
framed e f = (append-nil (leaves e), tt, inr (e, refl, f))

-- No assertion of `expression_split_by_websocket_frame` fails, and its three parts have the leaves of
-- the expression in their order: none of the first part is a frame, the middle part is the first
-- leaf that is one, and if there is none the first part is the expression and the others are empty.
pub split_total : (e : Expr) → (s : EswResult) × (split_by_websocket_frame e ≡ some s) × Splits e s
unfolding split_by_websocket_frame
split_total (expr m (text t)) = (only_prefix _, refl, plain _ refl refl)
split_total (expr m (raw e)) = (only_frame _, refl, framed _ refl)
split_total (expr m (ws_frame f)) = (only_frame _, refl, framed _ refl)
split_total (expr m (concat a b)) =
    let (s, e, h) = split_total a in
    let (s', e', k) = split_total b in
    let (r, e'', g) = split_concat-Splits m a b s s' h k in (r, rw e (rw e' e''), g)
split_total (expr m (modulo e k)) = (only_prefix _, refl, plain _ refl refl)
split_total (expr m connection_ptr) = (only_prefix _, refl, plain _ refl refl)
split_total (expr m connection_uid) = (only_prefix _, refl, plain _ refl refl)
split_total (expr m (regex re)) = (only_prefix _, refl, plain _ refl refl)
split_total (expr m message_marker) = (only_prefix _, refl, plain _ refl refl)
