-- ===== src/Transport/Convert/Pieces.antt =====
-- What the buffer should hold for a list of snippets.
use tcpkali.Base.{
  ℕ, ◌+◌, ◌≡◌, Bool, true, false, Bytes, List, [], ◌∷◌, ◌++◌, Option, none, some, length,
  if◌then◌else◌,
}
use tcpkali.WebSocket.Frame.{Side}
use tcpkali.Expr.{Expr, estimate}
use tcpkali.Expr.Eval.{Field}
use tcpkali.Expr.Eval.Fits.{Denotes, Fits}
use tcpkali.Transport.{Snippet}
use tcpkali.Transport.Collect.{is_header}
use tcpkali.Transport.Convert.{is_message, header, skipped}

abbrev pub data_of : Bool → Option Expr → Bytes → ℕ
data_of true none s = 0
data_of true (some e) s = estimate e
data_of false e s = length s

-- The largest header and the estimated data.
abbrev pub needed : Snippet → ℕ
needed s = 14 + data_of s.flags.expression_found s.expr s.bytes

abbrev pub all_needed : List Snippet → ℕ
all_needed [] = 0
all_needed (s ∷ ss) = needed s + all_needed ss

module _ (side : Side) (Says : Field → Bytes → Type 0) where
  abbrev pub FitsOf : Bool → Option Expr → Type 0
  FitsOf true none = ⊥
  FitsOf true (some e) = Fits side Says e
  FitsOf false e = Unit

  abbrev pub SnippetFits : Snippet → Type 0
  SnippetFits s = FitsOf s.flags.expression_found s.expr

  abbrev pub ContentOf : Bool → Option Expr → Bytes → Bytes → Type 0
  ContentOf true none s t = ⊥
  ContentOf true (some e) s t = Denotes side Says e t
  ContentOf false e s t = t ≡ s

  abbrev pub PieceOf : Bool → Bool → Snippet → Bytes → Type 0
  PieceOf websocket true s out = out ≡ []
  PieceOf websocket false s out =
      (t : Bytes) × (out ≡ header websocket side s (length t) ++ t)
      × ContentOf s.flags.expression_found s.expr s.bytes t

  -- Nothing for a request's header at the server, and else the data behind its own frame's header
  -- where the connection is a WebSocket and framing is requested.
  abbrev pub Piece : Bool → Snippet → Bytes → Type 0
  Piece websocket s out = PieceOf websocket (skipped websocket side s) s out

  -- The pieces in their order, with the sizes of the headers, of what is sent once and of the
  -- messages.
  pub data Pieces (websocket : Bool) : List Snippet → Bytes → ℕ → ℕ → ℕ → Type 0 where
    no_more : Pieces websocket [] [] 0 0 0
    one_more :
        (s : Snippet) {ss : List Snippet} (o : Bytes) {out : Bytes} {hdr once single : ℕ}
        → Piece websocket s o
        → Pieces websocket ss out hdr once single
        → Pieces websocket
            (s ∷ ss)
            (o ++ out)
            ((if is_header s.flags.purpose then length o else 0) + hdr)
            ((if is_message s.flags.purpose then 0 else length o) + once)
            ((if is_message s.flags.purpose then length o else 0) + single)
