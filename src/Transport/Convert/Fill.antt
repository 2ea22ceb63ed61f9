-- ===== src/Transport/Convert/Fill.antt =====
-- An initial conversion with room enough fills the buffer with the pieces of all snippets.
use tcpkali.Base.{
  ℕ, ◌+◌, ◌≤◌, ◌<◌, ◌≡◌, refl, sym, ap, ◌∙◌, Bool, true, false, Bytes, List, [], ◌∷◌, ◌++◌,
  append-nil, append_assoc, Option, none, some, length, length-append, All, if◌then◌else◌, arith,
}
use tcpkali.WebSocket.Frame.{Side}
use tcpkali.Expr.{Expr}
use tcpkali.Expr.Eval.{wrote, Field, Answer}
use tcpkali.Expr.Eval.Fits.{field_size, IsShort}
use tcpkali.Transport.{Snippet}
use tcpkali.Transport.Collect.{is_header}
use tcpkali.Transport.Payload.{total_size}
use tcpkali.Transport.Convert.{
  initial, Work, Step, next, is_message, place_kind, place_one, place_all,
}
use tcpkali.Transport.Convert.Pieces.{
  data_of, needed, all_needed, FitsOf, SnippetFits, Piece, Pieces, no_more, one_more,
}
use tcpkali.Transport.Convert.Place.{Advances, PlacedAs, place_expr-PlacedAs, place_data-PlacedAs}

module _ (side : Side) (Says : Field → Bytes → Type 0) {W : Type 0}
    (callback : Field → ℕ → ℕ → W → Answer W) (rand : W → ℕ → ℕ × W)
    (bounded : (w : W) (n : ℕ) → 0 < n → (rand w n).0 < n)
    (answers : (f : Field) (at size : ℕ) (w : W)
      → field_size f ≤ size
      → (s : Bytes) × ((callback f at size w).outcome ≡ wrote s)
        × (length s ≤ field_size f)
        × Says f s
        × IsShort (callback f at size w).value)
    (websocket : Bool) where
  place_kind-PlacedAs :
      (f : Bool) (x : Option Expr) (s : Snippet) (b : Work W)
      → s.flags.expression_found ≡ f
      → s.expr ≡ x
      → FitsOf side Says f x
      → total_size b.spec + (14 + data_of f x s.bytes) ≤ b.spec.allocated_size
      → PlacedAs side Says callback rand bounded answers websocket s b
          (place_kind callback rand initial websocket side f x s b)
  place_kind-PlacedAs true (some e) s b flag is_e fits room =
      place_expr-PlacedAs side Says callback rand bounded answers websocket s e b flag is_e fits
        (omega arith)
  place_kind-PlacedAs true none s b flag is_e fits room = absurd fits
  place_kind-PlacedAs false x s b flag is_e fits room =
      place_data-PlacedAs side Says callback rand bounded answers websocket s b flag (omega arith)

  -- The pieces of all the snippets were added.
  abbrev pub FilledAs : List Snippet → Work W → Step W → Type 0
  FilledAs ss b r =
      (b' : Work W) × (out : Bytes) × (hdr : ℕ) × (once : ℕ) × (single : ℕ) × (r ≡ next b')
      × Pieces side Says websocket ss out hdr once single
      × (b'.spec.contents ≡ b.spec.contents ++ out)
      × (b'.spec.ws_hdr_size ≡ b.spec.ws_hdr_size + hdr)
      × (b'.spec.once_size ≡ b.spec.once_size + once)
      × (b'.spec.single_message_size ≡ b.spec.single_message_size + single)
      × (b'.spec.allocated_size ≡ b.spec.allocated_size)
      × (b'.place_multiple_messages ≡ b.place_multiple_messages)
      × (length out ≤ all_needed ss)

  one_more-FilledAs :
      (s : Snippet) (ss : List Snippet) (b b' : Work W) (o : Bytes) (r : Step W)
      → Piece side Says websocket s o
      → Advances b s.flags.purpose o b'
      → length o ≤ needed s
      → FilledAs ss b' r
      → FilledAs (s ∷ ss) b r
  one_more-FilledAs s ss b b' o r piece (c, h, n, m, a, p) short
        (b'', out, hdr, once, single, e, pieces, c', h', n', m', a', p', short') =
      (
        b'',
        o ++ out,
        (if is_header s.flags.purpose then length o else 0) + hdr,
        (if is_message s.flags.purpose then 0 else length o) + once,
        (if is_message s.flags.purpose then length o else 0) + single,
        e,
        one_more s o piece pieces,
        c' ∙ ap (λ l. l ++ out) c ∙ append_assoc b.spec.contents o out,
        omega (arith, h, h'),
        omega (arith, n, n'),
        omega (arith, m, m'),
        a' ∙ a,
        p' ∙ p,
        omega (arith, short, short', length-append o out),
      )

  pub place_all-FilledAs :
      (ss : List Snippet) (b : Work W)
      → All (SnippetFits side Says) ss
      → total_size b.spec + all_needed ss ≤ b.spec.allocated_size
      → FilledAs ss b (place_all callback rand initial websocket side ss b)
  unfolding place_all place_one
  place_all-FilledAs [] b fits room = (
    b,
    [],
    0,
    0,
    0,
    refl,
    no_more,
    sym (append-nil b.spec.contents),
    omega arith,
    omega arith,
    omega arith,
    refl,
    refl,
    omega arith,
  )
  place_all-FilledAs (s ∷ ss) b fits room =
      let (b', o, e, piece, advances, short) =
        place_kind-PlacedAs s.flags.expression_found s.expr s b refl refl fits.0 (omega arith) in
      let grown : total_size b'.spec ≡ total_size b.spec + length o =
        ap length advances.0 ∙ length-append b.spec.contents o in
      rw e (
        one_more-FilledAs s ss b b' o (place_all callback rand initial websocket side ss b') piece
          advances short
          (place_all-FilledAs ss b' fits.1 (omega (arith, grown, short, advances.4))))
