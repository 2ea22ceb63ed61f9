-- ===== src/Transport/Convert/Place.antt =====
-- Each round of an initial conversion with room enough adds the piece of its snippet.
use tcpkali.Base.{
  ℕ, ◌+◌, ◌-◌, ◌≤◌, ◌<◌, ◌≡◌, refl, sym, ap, ap₂, subst, inl, inr, Bool, true, false, ◌&&◌, Bytes,
  [], ◌++◌, append-nil, Option, some, length, length-append, le→not-ltb, ◌==◌, if◌then◌else◌,
  Bool-cases, arith,
}
use tcpkali.WebSocket.Frame.{Side, text_frame}
use tcpkali.WebSocket.Frame.Laws.{frame_header_size}
use tcpkali.Expr.{Expr, estimate}
use tcpkali.Expr.Eval.{wrote, Field, Answer, eval}
use tcpkali.Expr.Eval.Fits.{field_size, IsShort, Denotes, Fits}
use tcpkali.Expr.Eval.Total.{eval_total}
use tcpkali.Transport.{Purpose, Snippet}
use tcpkali.Transport.Collect.{is_header}
use tcpkali.Transport.Payload.{total_size}
use tcpkali.Transport.Convert.{
  initial, Key, Work, Step, next, is_message, counted, with_token, pass, finish, framed, header,
  skipped, callback_wrapper, wrapped_rand, with_expr, place_string, key_of, place_expr, place_data,
  note_marker, moved_marker,
}
use tcpkali.Transport.Convert.Pieces.{data_of, needed, ContentOf, PieceOf, Piece}

header_bounds :
    (websocket : Bool) (side : Side) (s : Snippet) (n m : ℕ)
    → n ≤ m
    → (length (header websocket side s n) ≤ 14)
      × (length (header websocket side s n) ≤ length (header websocket side s m))
header_bounds websocket side s n m le = elim (Bool-cases (framed websocket s)) [
  | inl e ↦ rw e (omega (arith, frame_header_size side text_frame 0 1 n m le))
  | inr e ↦ rw e (omega arith)
]

and_false : (b : Bool) → (b && false) ≡ false
and_false true = refl
and_false false = refl

-- The piece `o` of a snippet with the purpose `p` was added.
abbrev pub Advances : {W : Type 0} → Work W → Purpose → Bytes → Work W → Type 0
Advances b p o b' =
    (b'.spec.contents ≡ b.spec.contents ++ o)
    × (b'.spec.ws_hdr_size ≡ b.spec.ws_hdr_size + (if is_header p then length o else 0))
    × (b'.spec.once_size ≡ b.spec.once_size + (if is_message p then 0 else length o))
    × (b'.spec.single_message_size
        ≡ b.spec.single_message_size + (if is_message p then length o else 0))
    × (b'.spec.allocated_size ≡ b.spec.allocated_size)
    × (b'.place_multiple_messages ≡ b.place_multiple_messages)

finish-Advances :
    {W : Type 0} (s : Snippet) (o : Bytes) (token : Option ℕ) (multiple : Bool) (w : W) (b : Work W)
    → total_size b.spec + length o ≤ b.spec.allocated_size
    → (b' : Work W) × (finish s o token multiple w b ≡ next b') × Advances b s.flags.purpose o b'
finish-Advances s o token multiple w b room = (
  pass s multiple w (counted s.flags.purpose (length o) o token b.spec) b,
  rw (le→not-ltb (b.spec.allocated_size + 1) (total_size b.spec + length o) (omega arith)) refl,
  (
    refl,
    added (is_header s.flags.purpose) b.spec.ws_hdr_size,
    not_added (is_message s.flags.purpose) b.spec.once_size,
    added (is_message s.flags.purpose) b.spec.single_message_size,
    refl,
    refl,
  ),
)
  where
    added : (c : Bool) (n : ℕ) → (if c then n + length o else n) ≡ n + (if c then length o else 0)
    added true n = refl
    added false n = omega arith

    not_added :
        (c : Bool) (n : ℕ) → (if c then n else n + length o) ≡ n + (if c then 0 else length o)
    not_added true n = omega arith
    not_added false n = refl

pass-Advances :
    {W : Type 0} (s : Snippet) (token : Option ℕ) (multiple : Bool) (w : W) (b : Work W)
    → Advances b s.flags.purpose [] (pass s multiple w (with_token token b.spec) b)
pass-Advances s token multiple w b = (
  sym (append-nil b.spec.contents),
  nothing (is_header s.flags.purpose) b.spec.ws_hdr_size,
  nothing (is_message s.flags.purpose) b.spec.once_size,
  nothing (is_message s.flags.purpose) b.spec.single_message_size,
  refl,
  refl,
)
  where
    nothing : (c : Bool) (n : ℕ) → n ≡ n + (if c then 0 else 0)
    nothing true n = omega arith
    nothing false n = omega arith

module _ (side : Side) (Says : Field → Bytes → Type 0) {W : Type 0}
    (callback : Field → ℕ → ℕ → W → Answer W) (rand : W → ℕ → ℕ × W)
    (bounded : (w : W) (n : ℕ) → 0 < n → (rand w n).0 < n)
    (answers : (f : Field) (at size : ℕ) (w : W)
      → field_size f ≤ size
      → (s : Bytes) × ((callback f at size w).outcome ≡ wrote s)
        × (length s ≤ field_size f)
        × Says f s
        × IsShort (callback f at size w).value)
    (websocket : Bool) where
  abbrev pub PlacedAs : Snippet → Work W → Step W → Type 0
  PlacedAs s b r =
      (b' : Work W) × (o : Bytes) × (r ≡ next b')
      × Piece side Says websocket s o
      × Advances b s.flags.purpose o b'
      × (length o ≤ needed s)

  place_string-PlacedAs :
      (s : Snippet) (e : Expr) (t : Bytes) (token found : Option ℕ) (multiple : Bool) (w : W)
      (b : Work W)
      → s.flags.expression_found ≡ true
      → s.expr ≡ some e
      → total_size b.spec + 14 + estimate e ≤ b.spec.allocated_size
      → length t ≤ estimate e
      → Denotes side Says e t
      → (e' : Expr)
      → PlacedAs s b (
          place_string callback rand initial websocket side
            (with_expr callback rand initial websocket side s e')
            (length (header websocket side s (estimate e)))
            t
            token
            found
            multiple
            w
            b)
  place_string-PlacedAs s e t token found multiple w b flag is_e room le means e' =
      let h = header websocket side s (length t) in
      let (largest, mono) = header_bounds websocket side s (length t) (estimate e) le in
      let size : data_of s.flags.expression_found s.expr s.bytes ≡ estimate e =
        ap₂ (λ f x. data_of f x s.bytes) flag is_e in
      let content : ContentOf side Says s.flags.expression_found s.expr s.bytes t =
        subst (λ f. ContentOf side Says f s.expr s.bytes t) (sym flag)
          (subst (λ x. ContentOf side Says true x s.bytes t) (sym is_e) means) in
      let s' = with_expr callback rand initial websocket side s e' in
      elim (Bool-cases (skipped websocket side s)) [
        | inl skip ↦ (
          pass s' multiple w (with_token token b.spec) b,
          [],
          rw skip refl,
          subst (λ k. PieceOf side Says websocket k s []) (sym skip) refl,
          pass-Advances s' token multiple w b,
          omega arith,
        )
        | inr keep ↦
            let (b', e'', advances) =
              finish-Advances s' (h ++ t)
                (if length h == length (header websocket side s (estimate e))
                  then token
                  else moved_marker token found
                      (length (header websocket side s (estimate e)) - length h))
                multiple w b (omega (arith, length-append h t)) in
            (
              b',
              h ++ t,
              rw keep (
                  rw (le→not-ltb (length (header websocket side s (estimate e))) (length h) mono)
                    e''),
              subst (λ k. PieceOf side Says websocket k s (h ++ t)) (sym keep) (t, refl, content),
              advances,
              omega (arith, length-append h t, size),
            )
      ]

  wrapped_answers :
      (f : Field) (at size : ℕ) (k : Key W)
      → field_size f ≤ size
      → (s : Bytes) × ((callback_wrapper callback rand initial websocket side f at size k).outcome
          ≡ wrote s)
        × (length s ≤ field_size f)
        × Says f s
        × IsShort (callback_wrapper callback rand initial websocket side f at size k).value
  wrapped_answers f at size k le = answers f at size k.world le

  pub place_expr-PlacedAs :
      (s : Snippet) (e : Expr) (b : Work W)
      → s.flags.expression_found ≡ true
      → s.expr ≡ some e
      → Fits side Says e
      → total_size b.spec + 14 + estimate e ≤ b.spec.allocated_size
      → PlacedAs s b (place_expr callback rand initial websocket side s e b)
  unfolding place_expr
  place_expr-PlacedAs s e b flag is_e fits room =
      let at = total_size b.spec + length (header websocket side s (estimate e)) in
      let (largest, mono) =
        header_bounds websocket side s (estimate e) (estimate e) (omega arith) in
      let r =
        eval (callback_wrapper callback rand initial websocket side)
          (wrapped_rand callback rand initial websocket side) side e at (b.spec.allocated_size - at)
          (key_of callback rand initial websocket side b) in
      let (t, wrote_t, le, means, fits', keeps, same) =
        eval_total side Says (callback_wrapper callback rand initial websocket side)
          (wrapped_rand callback rand initial websocket side) (λ k n pos. bounded k.world n pos)
          wrapped_answers e at (b.spec.allocated_size - at)
          (key_of callback rand initial websocket side b) fits (omega arith) in
      let noted =
        note_marker b.spec.marker_token_ptr r.world.marker_ptr r.world.multiple_message_markers in
      rw (le→not-ltb b.spec.allocated_size (total_size b.spec + 14 + estimate e) room) (
        rw wrote_t (
          place_string-PlacedAs s e t noted.0 noted.1.0 noted.1.1 r.world.world b flag is_e room le
            means r.part))

  pub place_data-PlacedAs :
      (s : Snippet) (b : Work W)
      → s.flags.expression_found ≡ false
      → total_size b.spec + 14 + length s.bytes ≤ b.spec.allocated_size
      → PlacedAs s b (place_data callback rand initial websocket side s b)
  unfolding place_data
  place_data-PlacedAs s b flag room =
      let h = header websocket side s (length s.bytes) in
      let (largest, mono) =
        header_bounds websocket side s (length s.bytes) (length s.bytes) (omega arith) in
      let size : data_of s.flags.expression_found s.expr s.bytes ≡ length s.bytes =
        ap (λ f. data_of f s.expr s.bytes) flag in
      let content : ContentOf side Says s.flags.expression_found s.expr s.bytes s.bytes =
        subst (λ f. ContentOf side Says f s.expr s.bytes s.bytes) (sym flag) refl in
      rw (le→not-ltb b.spec.allocated_size (total_size b.spec + length s.bytes) (omega arith))
        (elim (Bool-cases (skipped websocket side s)) [
          | inl skip ↦ (
            pass s b.multiple b.world b.spec b,
            [],
            rw skip refl,
            subst (λ k. PieceOf side Says websocket k s []) (sym skip) refl,
            pass-Advances s b.spec.marker_token_ptr b.multiple b.world b,
            omega arith,
          )
          | inr keep ↦
              let (b', e'', advances) =
                finish-Advances s (h ++ s.bytes) b.spec.marker_token_ptr b.multiple b.world b
                  (omega (arith, length-append h s.bytes)) in
              (
                b',
                h ++ s.bytes,
                rw keep (
                    rw (le→not-ltb (b.spec.allocated_size - total_size b.spec) 14 (omega arith))
                      (rw (and_false (framed websocket s)) e'')),
                subst (λ k. PieceOf side Says websocket k s (h ++ s.bytes)) (sym keep)
                    (s.bytes, refl, content),
                advances,
                omega (arith, length-append h s.bytes, size),
              )
        ])
