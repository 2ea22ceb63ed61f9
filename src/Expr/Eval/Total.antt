-- ===== src/Expr/Eval/Total.antt =====
-- An expression that fits is always evaluated to one of its strings.
use tcpkali.Base.{
  ℕ, ◌≤◌, ◌<◌, ◌≡◌, ◌↔◌, refl, sym, subst, Bytes, ◌++◌, length, length-append, arith, le→not-ltb,
}
use tcpkali.WebSocket.Frame.{Side, frame_header}
use tcpkali.WebSocket.Frame.Laws.{frame_header_size}
use tcpkali.Regex.Build.{add_size}
use tcpkali.Regex.Sized.{eval-Made}
use tcpkali.Expr.{
  Scope, Meta, Expr, expr, Node, text, raw, ws_frame, concat, modulo, connection_ptr,
  connection_uid, regex, message_marker, estimate,
}
use tcpkali.Expr.Eval.{wrote, Field, ptr, uid, marker, Answer, remember, ask, eval, eval_node}
use tcpkali.Expr.Eval.Fits.{field_size, IsShort, Denotes, Means, Fits, NodeFits}
use tcpkali.Expr.Eval.Good.{Good, GoodNode, remember-Good, cached-Good, concat-Good, modulo-Good}

module _ (side : Side) (Says : Field → Bytes → Type 0) {W : Type 0}
    (callback : Field → ℕ → ℕ → W → Answer W) (rand : W → ℕ → ℕ × W)
    (bounded : (w : W) (b : ℕ) → 0 < b → (rand w b).0 < b)
    (answers : (f : Field) (at size : ℕ) (w : W)
      → field_size f ≤ size
      → (s : Bytes) × ((callback f at size w).outcome ≡ wrote s)
        × (length s ≤ field_size f)
        × Says f s
        × IsShort (callback f at size w).value) where
  ask-Good :
      (n : Node) (sc : Scope) (f : Field) (at size k : ℕ) (w : W)
      → Means side Says n ≡ Says f
      → NodeFits side Says n k
      → field_size f ≤ k
      → k ≤ size
      → GoodNode side Says n k (ask n sc (callback f at size w))
  ask-Good n sc f at size k w says fits wide room =
      let (s, e, le, means, short) = answers f at size w (omega (arith, wide, room)) in
      (s, e, omega (arith, le, wide), subst (λ P. P s) (sym says) means, fits, refl, short, refl)

  mutual
    unfolding eval eval_node Fits NodeFits Denotes Means

    pub eval-Good :
        (e : Expr) (at size : ℕ) (w : W)
        → Fits side Says e
        → estimate e ≤ size
        → Good side Says e (eval callback rand side e at size w)
    eval-Good (expr m n) at size w h room =
        cached-Good side Says m n m.dynamic_scope size m.res w
          (remember m (eval_node callback rand side n m at size w)) refl h room
          (remember-Good side Says m n (eval_node callback rand side n m at size w) h.0
            (eval_node-Good n m at size w h.1 room))

    eval_node-Good :
        (n : Node) (m : Meta) (at size : ℕ) (w : W)
        → NodeFits side Says n m.estimate_size
        → m.estimate_size ≤ size
        → GoodNode side Says n m.estimate_size (eval_node callback rand side n m at size w)
    eval_node-Good (text t) m at size w h room =
        rw (le→not-ltb size (length t) (omega (arith, h, room)))
          (t, refl, h, refl, h, refl, tt, refl)
    eval_node-Good (raw e) m at size w h room =
        let (s, e', le, means, fits, keeps, same, short) =
          eval-Good e at size w h.1 (omega (arith, h.0, room)) in
        (s, e', omega (arith, le, h.0), means, (omega (arith, keeps, h.0), fits), same, short, refl)
    eval_node-Good (ws_frame f) m at size w h room = rw (le→not-ltb size m.estimate_size room) (
        rw (le→not-ltb size 14 (omega (arith, h.0, room))) (
          frame_header side f.opcode f.rsvs f.fin (length f.bytes) ++ f.bytes,
          refl,
          omega (
            arith,
            h.0,
            frame_header_size side f.opcode f.rsvs f.fin (length f.bytes) (length f.bytes)
                (omega arith),
            length-append (frame_header side f.opcode f.rsvs f.fin (length f.bytes)) f.bytes,
          ),
          refl,
          h,
          refl,
          tt,
          refl,
        ))
    eval_node-Good (concat a b) m at size w h room =
        rw (le→not-ltb size (add_size (estimate a) (estimate b)) (omega (arith, h.0, h.1, room))) (
          concat-Good side Says m.dynamic_scope at size m.estimate_size a b
            (eval callback rand side b) (eval callback rand side a at size w) h.0 room h.1
            (eval-Good a at size w h.2 (omega (arith, h.0, room)))
            (λ at' size' w' room'. eval-Good b at' size' w' h.3 room'))
    eval_node-Good (modulo e k) m at size w h room =
        modulo-Good side Says m.dynamic_scope size m.estimate_size e k
          (eval callback rand side e at size w) h.0 h.1 room h.2
          (eval-Good e at size w h.3 (omega (arith, h.1, room)))
    eval_node-Good connection_ptr m at size w h room =
        ask-Good connection_ptr m.dynamic_scope ptr at size m.estimate_size w refl h h room
    eval_node-Good connection_uid m at size w h room =
        ask-Good connection_uid m.dynamic_scope uid at size m.estimate_size w refl h h room
    eval_node-Good message_marker m at size w h room =
        ask-Good message_marker m.dynamic_scope marker at size m.estimate_size w refl h h room
    eval_node-Good (regex re) m at size w h room =
        let (out, g, e, matches, le) =
          eval-Made rand bounded re size w h.1 (omega (arith, h.0, room)) in
        rw e (out, refl, omega (arith, le, h.0), matches, h, refl, tt, refl)

  -- Where the sizes are right, and the callback and the generator keep theirs, an expression in a
  -- buffer of its estimated size or more is evaluated without fault or refusal: the bytes are one of
  -- the expression's strings and not more than the estimate, and the expression with its new caches
  -- has right sizes, the same estimate and the same strings.
  pub eval_total :
      (e : Expr) (at size : ℕ) (w : W)
      → Fits side Says e
      → estimate e ≤ size
      → (s : Bytes) × ((eval callback rand side e at size w).outcome ≡ wrote s)
        × (length s ≤ estimate e)
        × Denotes side Says e s
        × Fits side Says (eval callback rand side e at size w).part
        × (estimate (eval callback rand side e at size w).part ≡ estimate e)
        × ((t : Bytes)
            → Denotes side Says (eval callback rand side e at size w).part t
              ↔ Denotes side Says e t)
  eval_total e at size w h room =
      let (s, e', le, means, fits, keeps, same, short) = eval-Good e at size w h room in
      (
        s,
        e',
        le,
        means,
        fits,
        keeps,
        λ t. (λ d. subst (λ P. P t) same d, λ d. subst (λ P. P t) (sym same) d),
      )
