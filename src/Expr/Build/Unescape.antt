-- ===== src/Expr/Build/Unescape.antt =====
-- Unescaping and replicating keep the sizes of an expression right.
use tcpkali.Base.{ℕ, ◌≤◌, ◌≡◌, ◌≢◌, refl, sym, ap₂, ◌∙◌, Bytes, Option, none, some, arith}
use tcpkali.Data.Unescape.Bounds.{length-unescape_data}
use tcpkali.WebSocket.Frame.{Side}
use tcpkali.Regex.Matches.{Both}
use tcpkali.Expr.{
  Expr, expr, Node, text, raw, ws_frame, concat, modulo, connection_ptr, connection_uid, regex,
  message_marker, estimate,
}
use tcpkali.Expr.Eval.{Field}
use tcpkali.Expr.Eval.Fits.{Denotes, Means, Fits, NodeFits}
use tcpkali.Expr.Build.{replicate_expression, unescape_expression}

-- Nothing is kept for a connection.
unfoldable mutual
  pub IsFresh : Expr → Type 0
  IsFresh (expr m n) = (m.res ≡ none) × IsFreshNode n

  pub IsFreshNode : Node → Type 0
  IsFreshNode (raw e) = IsFresh e
  IsFreshNode (concat a b) = IsFresh a × IsFresh b
  IsFreshNode (modulo e k) = IsFresh e
  IsFreshNode n = Unit

uncached : {A : Type 0} (r : Option Bytes) (s : Bytes) → r ≡ none → r ≡ some s → A
uncached r s e e' = absurd (apart (sym e ∙ e'))
  where
    apart : none ≢ some s
    apart e = cc

module _ (side : Side) (Says : Field → Bytes → Type 0) where
  -- Unescaping an expression that fits and of which nothing was evaluated gives one that fits, with
  -- an estimate that is not larger.
  pub unescape_expression-Fits :
      (junk : ℕ → ℕ → ℕ) (e : Expr)
      → IsFresh e
      → Fits side Says e
      → Fits side Says (unescape_expression junk e)
        × (estimate (unescape_expression junk e) ≤ estimate e)
  unfolding unescape_expression Fits NodeFits IsFresh IsFreshNode
  unescape_expression-Fits junk (expr m (text t)) new h = (
    ((λ s e. uncached _ s new.0 e), omega arith),
    omega (arith, h.1, length-unescape_data junk t),
  )
  unescape_expression-Fits junk (expr m (raw e)) new h =
      let (fits, le) = unescape_expression-Fits junk e new.1 h.1.1 in
      (((λ s e. uncached _ s new.0 e), (omega (arith, le, h.1.0), fits)), omega arith)
  unescape_expression-Fits junk (expr m (concat a b)) new h =
      let (fits, le) = unescape_expression-Fits junk a new.1.0 h.1.2 in
      let (fits', le') = unescape_expression-Fits junk b new.1.1 h.1.3 in
      (
        (
          (λ s e. uncached _ s new.0 e),
          (omega (arith, le, le', h.1.1), omega (arith, le, le', h.1.1), fits, fits'),
        ),
        omega (arith, le, le', h.1.0, h.1.1),
      )
  unescape_expression-Fits junk (expr m (ws_frame f)) new h = (
    (
      (λ s e. uncached _ s new.0 e),
      (
        omega (arith, h.1.0, h.1.1, length-unescape_data junk f.bytes),
        omega (arith, h.1.0, h.1.1, length-unescape_data junk f.bytes),
      ),
    ),
    omega (arith, h.1.0, h.1.1, length-unescape_data junk f.bytes),
  )
  unescape_expression-Fits junk (expr m (modulo e k)) new h = ((h.0, h.1), omega arith)
  unescape_expression-Fits junk (expr m connection_ptr) new h = ((h.0, h.1), omega arith)
  unescape_expression-Fits junk (expr m connection_uid) new h = ((h.0, h.1), omega arith)
  unescape_expression-Fits junk (expr m (regex re)) new h = ((h.0, h.1), omega arith)
  unescape_expression-Fits junk (expr m message_marker) new h = ((h.0, h.1), omega arith)

  -- A replica has nothing kept, and the estimate, the strings and right sizes of the original.
  pub replicate_expression-Fits :
      (e : Expr)
      → Fits side Says e
      → IsFresh (replicate_expression e)
        × Fits side Says (replicate_expression e)
        × (estimate (replicate_expression e) ≡ estimate e)
        × (Denotes side Says (replicate_expression e) ≡ Denotes side Says e)
  unfolding replicate_expression Fits NodeFits IsFresh IsFreshNode Denotes Means
  replicate_expression-Fits (expr m (text t)) h =
      ((refl, tt), ((λ s e. uncached _ s refl e), h.1), refl, refl)
  replicate_expression-Fits (expr m (raw e)) h =
      let (new, fits, keeps, same) = replicate_expression-Fits e h.1.1 in
      ((refl, new), ((λ s e. uncached _ s refl e), (omega (arith, keeps, h.1.0), fits)), refl, same)
  replicate_expression-Fits (expr m (ws_frame f)) h =
      ((refl, tt), ((λ s e. uncached _ s refl e), h.1), refl, refl)
  replicate_expression-Fits (expr m (concat a b)) h =
      let (new, fits, keeps, same) = replicate_expression-Fits a h.1.2 in
      let (new', fits', keeps', same') = replicate_expression-Fits b h.1.3 in
      (
        (refl, (new, new')),
        (
          (λ s e. uncached _ s refl e),
          (omega (arith, keeps, keeps', h.1.0), omega (arith, keeps, keeps', h.1.1), fits, fits'),
        ),
        refl,
        ap₂ Both same same',
      )
  replicate_expression-Fits (expr m (modulo e k)) h =
      let (new, fits, keeps, same) = replicate_expression-Fits e h.1.3 in
      (
        (refl, new),
        ((λ s e. uncached _ s refl e), (h.1.0, omega (arith, keeps, h.1.1), h.1.2, fits)),
        refl,
        refl,
      )
  replicate_expression-Fits (expr m connection_ptr) h =
      ((refl, tt), ((λ s e. uncached _ s refl e), h.1), refl, refl)
  replicate_expression-Fits (expr m connection_uid) h =
      ((refl, tt), ((λ s e. uncached _ s refl e), h.1), refl, refl)
  replicate_expression-Fits (expr m (regex re)) h =
      ((refl, tt), ((λ s e. uncached _ s refl e), h.1), refl, refl)
  replicate_expression-Fits (expr m message_marker) h =
      ((refl, tt), ((λ s e. uncached _ s refl e), h.1), refl, refl)
