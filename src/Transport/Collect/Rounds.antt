-- ===== src/Transport/Collect/Rounds.antt =====
-- The loop of `message_collection_add_expr` ends, and keeps the order of the parts.
use tcpkali.Base.{
  ℕ, zero, suc, ◌≤◌, ◌<◌, ◌≡◌, refl, sym, ap, ◌∙◌, subst, ◌⊎◌, inl, inr, true, [], ◌++◌, append-nil,
  append_assoc, Option, none, some, some-injective, length, length-append, arith,
}
use tcpkali.Expr.{Expr, expr, concat, text}
use tcpkali.Expr.Build.{EswResult}
use tcpkali.Expr.Build.Split.{leaves, leaves_of, is_frame, NoFrame, Splits, split_total}
use tcpkali.Transport.{Purpose, Collection}
use tcpkali.Transport.Collect.{
  ensure_space, prefix_flags, frame_flags, append_expr, add_parts, add_rest, add_expr, rounds,
}
use tcpkali.Transport.Collect.Space.{ensure_space_enough}
use tcpkali.Transport.Collect.Order.{
  IsWell, Extends, Suits, Extends-trans, append_expr-IsWell, append_expr-Extends,
}

leaves_positive : (e : Expr) → 1 ≤ length (leaves e)
leaves_positive (expr m (concat a b)) =
    omega (arith, length-append (leaves a) (leaves b), leaves_positive a)
leaves_positive (expr m (text s)) = omega arith
leaves_positive (expr m node) = omega arith

-- One round of the loop.
add_parts-IsWell :
    (mc : Collection) (kind : Purpose) (e : Expr) (s : EswResult)
    → IsWell mc
    → Splits e s
    → IsWell (add_parts mc kind s)
      × Extends mc
          (add_parts mc kind s)
          (leaves_of s.esw_prefix ++ leaves_of s.esw_websocket_frame)
          kind
unfolding ensure_space
add_parts-IsWell mc kind e s well splits =
    let roomy = ensure_space mc 2 in
    let one = append_expr roomy (prefix_flags kind) s.esw_prefix in
    let (h, k, space) =
      append_expr-IsWell roomy (prefix_flags kind) s.esw_prefix 1 well.0 well.1
        (ensure_space_enough mc 2) (prefix_suits s.esw_prefix splits.1) in
    let (h', k', space') =
      append_expr-IsWell one (frame_flags kind) s.esw_websocket_frame 0 h k space
        (frame_suits s.esw_websocket_frame splits.2) in
    (
      (h', k', omega arith),
      Extends-trans mc one (add_parts mc kind s) (leaves_of s.esw_prefix)
          (leaves_of s.esw_websocket_frame) kind
          (append_expr-Extends roomy (prefix_flags kind) s.esw_prefix)
          (append_expr-Extends one (frame_flags kind) s.esw_websocket_frame),
    )
  where
    prefix_suits : (p : Option Expr) → NoFrame (leaves_of p) → Suits (prefix_flags kind) p
    prefix_suits none h = tt
    prefix_suits (some p) h = inl (refl, h)

    frame_suits :
        (f : Option Expr)
        → ((f ≡ none) × (s.esw_prefix ≡ some e) × (s.esw_remainder ≡ none))
          ⊎ ((g : Expr) × (f ≡ some g) × (is_frame g ≡ true))
        → Suits (frame_flags kind) f
    frame_suits none h = tt
    frame_suits (some f) (inl (e, p, r)) = elim (apart f e) [ ]
      where
        apart : (f : Expr) → some f ≡ none → ⊥
        apart f e = cc
    frame_suits (some f) (inr (g, e, framed)) =
        inr (refl, ap is_frame (some-injective _ _ e) ∙ framed)

-- What is left is smaller.
remainder_smaller :
    (e r : Expr) (s : EswResult)
    → Splits e s
    → s.esw_remainder ≡ some r
    → length (leaves r) < length (leaves e)
remainder_smaller e r s (order, none_before, shape) rest = elim shape [
  | inl (f, p, q) ↦ absurd (apart (sym q ∙ rest))
  | inr (f, is_f, framed) ↦ omega (
    arith,
    ap length order,
    ap (λ x. length (leaves_of x)) is_f,
    ap (λ x. length (leaves_of x)) rest,
    leaves_positive f,
    length-append (leaves_of s.esw_prefix)
        (leaves_of s.esw_websocket_frame ++ leaves_of s.esw_remainder),
    length-append (leaves_of s.esw_websocket_frame) (leaves_of s.esw_remainder),
  )
]
  where
    apart : none ≡ some r → ⊥
    apart e = cc

abbrev Added : Collection → Purpose → Expr → Option Collection → Type 0
Added mc kind e r =
    (mc' : Collection) × (r ≡ some mc') × IsWell mc' × Extends mc mc' (leaves e) kind

-- The rest of a round, whose next rounds are right for smaller expressions.
rest-Added :
    (next : Collection → Expr → Option Collection) (kind : Purpose) (mc : Collection) (e : Expr)
    (s : EswResult)
    → ((mc' : Collection) (r : Expr)
        → length (leaves r) < length (leaves e)
        → IsWell mc'
        → Added mc' kind r (next mc' r))
    → Splits e s
    → IsWell (add_parts mc kind s)
    → Extends mc
        (add_parts mc kind s)
        (leaves_of s.esw_prefix ++ leaves_of s.esw_websocket_frame)
        kind
    → (r : Option Expr) → s.esw_remainder ≡ r
    → Added mc kind e (add_rest next (add_parts mc kind s) r)
rest-Added next kind mc e s right splits well extends none rest = (
  add_parts mc kind s,
  refl,
  well,
  subst (λ l. Extends mc (add_parts mc kind s) l kind)
      (sym (append-nil _)
        ∙ append_assoc (leaves_of s.esw_prefix) (leaves_of s.esw_websocket_frame) []
        ∙ ap (λ x. leaves_of s.esw_prefix ++ (leaves_of s.esw_websocket_frame ++ leaves_of x))
            (sym rest)
        ∙ splits.0)
      extends,
)
rest-Added next kind mc e s right splits well extends (some r) rest =
    let (mc', e', well', extends') =
      right (add_parts mc kind s) r (remainder_smaller e r s splits rest) well in
    (
      mc',
      e',
      well',
      subst (λ l. Extends mc mc' l kind)
          (append_assoc (leaves_of s.esw_prefix) (leaves_of s.esw_websocket_frame) (leaves r)
            ∙ ap (λ x. leaves_of s.esw_prefix ++ (leaves_of s.esw_websocket_frame ++ leaves_of x))
                (sym rest)
            ∙ splits.0)
          (Extends-trans mc (add_parts mc kind s) mc'
            (leaves_of s.esw_prefix ++ leaves_of s.esw_websocket_frame) (leaves r) kind extends
            extends'),
    )

add_expr-Added :
    (fuel : ℕ) (kind : Purpose) (mc : Collection) (e : Expr)
    → length (leaves e) ≤ fuel
    → IsWell mc
    → Added mc kind e (add_expr fuel kind mc e)
unfolding add_expr
add_expr-Added zero kind mc e enough well = elim (positive (leaves_positive e)) [ ]
  where
    positive : 1 ≤ length (leaves e) → ⊥
    positive h = omega arith
add_expr-Added (suc fuel) kind mc e enough well =
    let (s, split, splits) = split_total e in
    let (well', extends) = add_parts-IsWell mc kind e s well splits in
    rw split (
      rest-Added (add_expr fuel kind) kind mc e s
        (λ mc' r smaller well''. add_expr-Added fuel kind mc' r (omega arith) well'') splits well'
        extends s.esw_remainder refl)

-- Adding any expression to a well-formed collection succeeds in as many rounds as it has leaves. The
-- collection stays well-formed, the old snippets stay in front, and the new ones have the
-- expression's leaves in order and the purpose asked for.
pub add_expr_total :
    (kind : Purpose) (mc : Collection) (e : Expr)
    → IsWell mc
    → (mc' : Collection) × (add_expr (rounds e) kind mc e ≡ some mc')
      × IsWell mc'
      × Extends mc mc' (leaves e) kind
add_expr_total kind mc e well = add_expr-Added (rounds e) kind mc e (omega arith) well
