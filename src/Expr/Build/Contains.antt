-- ===== src/Expr/Build/Contains.antt =====
-- The search for a kind of subexpression.
use tcpkali.Base.{ℕ, ◌≡◌, ◌↔◌, refl, ◌⊎◌, inl, inr, Bool, true, false, ◌||◌, ◌==◌, ==_iff}
use tcpkali.Expr.{
  ℤ, Meta, Expr, expr, Node, text, raw, ws_frame, concat, modulo, connection_ptr, connection_uid,
  regex, message_marker,
}
use tcpkali.Expr.Build.{type_number, has_subexpression}

-- The expression or one below it has the kind with the number `t`.
pub data Contains (t : ℕ) : Expr → Type 0 where
  here : (m : Meta) (n : Node) → type_number n ≡ t → Contains t (expr m n)
  in_raw : (m : Meta) {e : Expr} → Contains t e → Contains t (expr m (raw e))
  in_first : (m : Meta) {a : Expr} (b : Expr) → Contains t a → Contains t (expr m (concat a b))
  in_second : (m : Meta) (a : Expr) {b : Expr} → Contains t b → Contains t (expr m (concat a b))
  in_modulo : (m : Meta) {e : Expr} (k : ℤ) → Contains t e → Contains t (expr m (modulo e k))

or_cases : (a b : Bool) → (a || b) ≡ true → (a ≡ true) ⊎ (b ≡ true)
or_cases true b h = inl refl
or_cases false b h = inr h

or_left : (a b : Bool) → a ≡ true → (a || b) ≡ true
or_left a b h = rw h refl

or_right : (a b : Bool) → b ≡ true → (a || b) ≡ true
or_right true b h = refl
or_right false b h = h

found : (e : Expr) (t : ℕ) → has_subexpression e t ≡ true → Contains t e
unfolding has_subexpression
found (expr m (raw e)) t h = elim (or_cases (1 == t) (has_subexpression e t) h) [
  | inl k ↦ here m _ ((==_iff 1 t).0 k)
  | inr k ↦ in_raw m (found e t k)
]
found (expr m (concat a b)) t h =
    elim (or_cases (3 == t) (has_subexpression a t || has_subexpression b t) h) [
      | inl k ↦ here m _ ((==_iff 3 t).0 k)
      | inr k ↦ elim (or_cases (has_subexpression a t) (has_subexpression b t) k) [
        | inl k ↦ in_first m b (found a t k)
        | inr k ↦ in_second m a (found b t k)
      ]
    ]
found (expr m (modulo e k)) t h = elim (or_cases (4 == t) (has_subexpression e t) h) [
  | inl i ↦ here m _ ((==_iff 4 t).0 i)
  | inr i ↦ in_modulo m k (found e t i)
]
found (expr m (text s)) t h = here m _ ((==_iff 0 t).0 h)
found (expr m (ws_frame f)) t h = here m _ ((==_iff 2 t).0 h)
found (expr m connection_ptr) t h = here m _ ((==_iff 5 t).0 h)
found (expr m connection_uid) t h = here m _ ((==_iff 6 t).0 h)
found (expr m (regex re)) t h = here m _ ((==_iff 7 t).0 h)
found (expr m message_marker) t h = here m _ ((==_iff 8 t).0 h)

has-here : (m : Meta) (n : Node) (t : ℕ) → type_number n ≡ t → has_subexpression (expr m n) t ≡ true
unfolding has_subexpression
has-here m (raw e) t h = or_left (1 == t) (has_subexpression e t) ((==_iff 1 t).1 h)
has-here m (concat a b) t h =
    or_left (3 == t) (has_subexpression a t || has_subexpression b t) ((==_iff 3 t).1 h)
has-here m (modulo e k) t h = or_left (4 == t) (has_subexpression e t) ((==_iff 4 t).1 h)
has-here m (text s) t h = (==_iff 0 t).1 h
has-here m (ws_frame f) t h = (==_iff 2 t).1 h
has-here m connection_ptr t h = (==_iff 5 t).1 h
has-here m connection_uid t h = (==_iff 6 t).1 h
has-here m (regex re) t h = (==_iff 7 t).1 h
has-here m message_marker t h = (==_iff 8 t).1 h

has-Contains : (t : ℕ) (e : Expr) → Contains t e → has_subexpression e t ≡ true
unfolding has_subexpression
has-Contains t _ (here m n h) = has-here m n t h
has-Contains t _ (in_raw m {e} h) = or_right (1 == t) (has_subexpression e t) (has-Contains t e h)
has-Contains t _ (in_first m {a} b h) =
    or_right (3 == t) (has_subexpression a t || has_subexpression b t)
      (or_left (has_subexpression a t) (has_subexpression b t) (has-Contains t a h))
has-Contains t _ (in_second m a {b} h) =
    or_right (3 == t) (has_subexpression a t || has_subexpression b t)
      (or_right (has_subexpression a t) (has_subexpression b t) (has-Contains t b h))
has-Contains t _ (in_modulo m {e} k h) =
    or_right (4 == t) (has_subexpression e t) (has-Contains t e h)

-- The search succeeds exactly where the expression or one below it has that kind.
pub has_subexpression_iff : (e : Expr) (t : ℕ) → has_subexpression e t ≡ true ↔ Contains t e
has_subexpression_iff e t = (found e t, has-Contains t e)
