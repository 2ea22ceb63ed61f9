-- ===== src/Expr/Eval/Again.antt =====
-- What is evaluated once per connection.
use tcpkali.Base.{
  ℕ, ◌≡◌, ◌≢◌, refl, sym, ap, ◌∙◌, length, Bytes, [], ◌∷◌, Option, none, some, Bool, true, false,
  if◌then◌else◌, ltb, Bool-cases, inl, inr,
}
use tcpkali.WebSocket.Frame.{Side}
use tcpkali.Expr.{
  ℤ, Scope, global_fixed, per_connection, per_message, Meta, Expr, expr, Node, text, raw, ws_frame,
  concat, modulo, connection_ptr, connection_uid, regex, message_marker, meta, estimate, scope,
}
use tcpkali.Regex.Build.{add_size}
use tcpkali.Expr.Decimal.{decimal_long}
use tcpkali.Expr.Eval.{
  Outcome, wrote, refused, fault, Field, Answer, Result, Switch, keep, remember, again, overrun,
  cached, eval, eval_node, print_part, divide_part, modulo_part, concat_part, printed,
}

wrote-injective : (s t : Bytes) → wrote s ≡ wrote t → s ≡ t
wrote-injective s t e = ap bytes_of e
  where
    bytes_of : Outcome → Bytes
    bytes_of (wrote u) = u
    bytes_of refused = []
    bytes_of fault = []

keep_again :
    (sc : Scope) (o : Outcome) (res : Option Bytes) (c : ℕ) (s : Bytes)
    → sc ≡ per_connection
    → (keep sc o res).1 ≡ wrote (c ∷ s)
    → ((keep sc o res).0 ≡ some (c ∷ s))
keep_again per_connection (wrote []) res c s p e = cc
keep_again per_connection (wrote (d ∷ t)) res c s p e = ap some (wrote-injective (d ∷ t) (c ∷ s) e)
keep_again per_connection refused res c s p e = cc
keep_again per_connection fault res c s p e = cc
keep_again global_fixed o res c s p e = cc
keep_again per_message o res c s p e = cc

-- A `return` inside the `switch` gives no bytes.
abbrev ReturnsNothing : {W : Type 0} → Switch W → Type 0
ReturnsNothing r = r.returned ≡ true → (s : Bytes) → r.outcome ≢ wrote s

module _ {W : Type 0} where
  print-ReturnsNothing :
      (sc : Scope) (e : Expr) (m v : ℤ) (w : W) (s : Option Bytes)
      → ReturnsNothing (print_part sc e m v w s)
  print-ReturnsNothing sc e m v w none r t = cc
  print-ReturnsNothing sc e m v w (some s) r t = cc

  divide-ReturnsNothing :
      (sc : Scope) (size : ℕ) (e : Expr) (m : ℤ) (w : W) (v : Option ℤ)
      → ReturnsNothing (divide_part sc size e m w v)
  divide-ReturnsNothing sc size e m w none r t = cc
  divide-ReturnsNothing sc size e m w (some v) r t =
      print-ReturnsNothing sc e m v w (printed (decimal_long v) size) r t

  modulo-ReturnsNothing :
      (sc : Scope) (size : ℕ) (m : ℤ) (e : Expr) (o : Outcome) (v : Option ℤ) (w : W)
      → ReturnsNothing (modulo_part sc size m e o v w)
  modulo-ReturnsNothing sc size m e (wrote s) v w r t = divide-ReturnsNothing sc size e m w _ r t
  modulo-ReturnsNothing sc size m e refused v w r t = divide-ReturnsNothing sc size e m w _ r t
  modulo-ReturnsNothing sc size m e fault v w r t = cc

  concat-ReturnsNothing :
      (sc : Scope) (at size : ℕ) (b : Expr) (next : ℕ → ℕ → W → Result Expr W) (e : Expr)
      (o : Outcome) (v : Option ℤ) (w : W)
      → ReturnsNothing (concat_part sc at size b next e o v w)
  concat-ReturnsNothing sc at size b next e (wrote a) v w r t = cc
  concat-ReturnsNothing sc at size b next e refused v w r t = cc
  concat-ReturnsNothing sc at size b next e fault v w r t = cc

  if-ReturnsNothing :
      (c : Bool) (x y : Switch W)
      → ReturnsNothing x
      → ReturnsNothing y
      → ReturnsNothing (if c then x else y)
  if-ReturnsNothing true x y h k = h
  if-ReturnsNothing false x y h k = k

module _ {W : Type 0} (callback : Field → ℕ → ℕ → W → Answer W) (rand : W → ℕ → ℕ × W)
    (side : Side) where
  from_cache :
      (e : Expr) (s : Bytes) (at size : ℕ) (w : W)
      → scope e ≡ per_connection
      → (meta e).res ≡ some s
      → eval callback rand side e at size w
        ≡ (if ltb size (length s) then overrun e w else again e s w)
  unfolding eval
  from_cache (expr m n) s at size w p q = rw p (rw q refl)

  eval_node-ReturnsNothing :
      (n : Node) (m : Meta) (at size : ℕ) (w : W)
      → ReturnsNothing (eval_node callback rand side n m at size w)
  unfolding eval_node
  eval_node-ReturnsNothing (text t) m at size w =
      if-ReturnsNothing (ltb size (length t)) _ _ (λ r s. cc) (λ r s. cc)
  eval_node-ReturnsNothing (raw e) m at size w = λ r s. cc
  eval_node-ReturnsNothing (ws_frame f) m at size w =
      if-ReturnsNothing (ltb size m.estimate_size) _ _ (λ r s. cc)
        (if-ReturnsNothing (ltb size 14) _ _ (λ r s. cc) (λ r s. cc))
  eval_node-ReturnsNothing (concat a b) m at size w =
      let r = eval callback rand side a at size w in
      if-ReturnsNothing (ltb size (add_size (estimate a) (estimate b))) _ _ (λ r s. cc)
        (concat-ReturnsNothing m.dynamic_scope at size b (eval callback rand side b) r.part
          r.outcome r.value r.world)
  eval_node-ReturnsNothing (modulo e k) m at size w =
      let r = eval callback rand side e at size w in
      modulo-ReturnsNothing m.dynamic_scope size k r.part r.outcome r.value r.world
  eval_node-ReturnsNothing connection_ptr m at size w = λ r s. cc
  eval_node-ReturnsNothing connection_uid m at size w = λ r s. cc
  eval_node-ReturnsNothing message_marker m at size w = λ r s. cc
  eval_node-ReturnsNothing (regex re) m at size w = λ r s. cc

  abbrev Repeats : Result Expr W → Type 0
  Repeats r =
      (c : ℕ) (s : Bytes)
      → scope r.part ≡ per_connection
      → r.outcome ≡ wrote (c ∷ s)
      → (meta r.part).res ≡ some (c ∷ s)

  if-Repeats :
      (b : Bool) (x y : Result Expr W) → Repeats x → Repeats y → Repeats (if b then x else y)
  if-Repeats true x y h k = h
  if-Repeats false x y h k = k

  remember-Repeats : (m : Meta) (r : Switch W) → ReturnsNothing r → Repeats (remember m r)
  remember-Repeats m r h c s p e = elim (Bool-cases r.returned) [
    | inl out ↦ absurd (
        h out (c ∷ s) (
          ap (λ b. (if b then (m.res, r.outcome) else keep r.dynamic_scope r.outcome m.res).1)
            (sym out)
          ∙ e))
    | inr stays ↦
        ap (λ b. (if b then (m.res, r.outcome) else keep r.dynamic_scope r.outcome m.res).0) stays
        ∙ keep_again r.dynamic_scope r.outcome m.res c s p (
            ap (λ b. (if b then (m.res, r.outcome) else keep r.dynamic_scope r.outcome m.res).1)
              (sym stays)
            ∙ e)
  ]

  cached-Repeats :
      (e : Expr) (sc : Scope) (size : ℕ) (res : Option Bytes) (w : W) (r : Result Expr W)
      → (meta e).res ≡ res
      → Repeats r
      → Repeats (cached e sc size res w r)
  cached-Repeats e per_connection size (some t) w r q h =
      if-Repeats (ltb size (length t)) (overrun e w) (again e t w) (λ c s p o. cc)
        (λ c s p o. q ∙ ap some (wrote-injective t (c ∷ s) o))
  cached-Repeats e per_connection size none w r q h = h
  cached-Repeats e global_fixed size res w r q h = h
  cached-Repeats e per_message size res w r q h = h

  eval-Repeats : (e : Expr) (at size : ℕ) (w : W) → Repeats (eval callback rand side e at size w)
  unfolding eval
  eval-Repeats (expr m n) at size w =
      cached-Repeats (expr m n) m.dynamic_scope size m.res w _ refl (
        remember-Repeats m (eval_node callback rand side n m at size w)
          (eval_node-ReturnsNothing n m at size w))

  -- Whatever expression, buffer, callback and generator: if its first evaluation gives some bytes and
  -- leaves it with the scope of a connection, every later one gives the same bytes in a buffer that
  -- they fit, and writes behind the end of a smaller one, where it should give -1. Neither asks the
  -- callback or draws a number.
  pub eval-again :
      (e : Expr) (at size at' size' : ℕ) (w w' : W) (c : ℕ) (s : Bytes)
      → scope (eval callback rand side e at size w).part ≡ per_connection
      → (eval callback rand side e at size w).outcome ≡ wrote (c ∷ s)
      → eval callback rand side (eval callback rand side e at size w).part at' size' w' ≡ (
          if ltb size' (length (c ∷ s))
          then overrun (eval callback rand side e at size w).part w'
          else again (eval callback rand side e at size w).part (c ∷ s) w')
  eval-again e at size at' size' w w' c s p o =
      from_cache (eval callback rand side e at size w).part (c ∷ s) at' size' w' p
        (eval-Repeats e at size w c s p o)
