-- ===== src/Transport/Convert/Whole.antt =====
-- The initial conversion of a collection as a whole.
use tcpkali.Base.{
  ℕ, suc, ◌+◌, ◌≤◌, ◌<◌, ◌≡◌, ◌≢◌, refl, sym, ap, ◌∙◌, subst, inl, inr, Bool, true, false, Bytes,
  List, [], ◌∷◌, none, some, length, All, bit_and, ltb, le→not-ltb, ◌==◌, if◌then◌else◌, Bool-cases,
  arith,
}
use tcpkali.WebSocket.Frame.{Side}
use tcpkali.Regex.Build.{add_size}
use tcpkali.Expr.Eval.{wrote, Field, Answer}
use tcpkali.Expr.Eval.Fits.{field_size, IsShort}
use tcpkali.Transport.{
  flags_value, Snippet, State, embryonic, finalized_plain_tcp, finalized_websocket, Collection,
}
use tcpkali.Transport.Collect.{embryonic_state}
use tcpkali.Transport.Size.{
  Estimate, maximum_size, data_size, with_header, sizes_from, estimate_size,
}
use tcpkali.Transport.Payload.{total_size}
use tcpkali.Transport.Convert.{initial, Work, Step, next, is_websocket, place_all}
use tcpkali.Transport.Convert.Passes.{
  empty_spec, restart, passes, again, asserted, convert, of_size, initial_spec,
}
use tcpkali.Transport.Convert.Pieces.{all_needed, FitsOf, SnippetFits, Pieces}
use tcpkali.Transport.Convert.Fill.{place_all-FilledAs}

module _ (side : Side) (Says : Field → Bytes → Type 0) (quotient : ℕ → ℕ → ℕ) where
  data_size-some :
      (mce : Estimate) (f : Bool) (x : _) (s : Bytes)
      → FitsOf side Says f x
      → (n : ℕ) × (data_size quotient mce f x s ≡ some n)
  data_size-some mce true (some e) s h = (_, refl)
  data_size-some mce true none s h = absurd h
  data_size-some mce false x s h = (length s, refl)

  -- No pointer that an estimate follows is NULL.
  sizes_from-some :
      (kind_and kind_equal : ℕ) (mce : Estimate) (side' : Side) (ws_enable : Bool)
      (ss : List Snippet) (total : ℕ)
      → All (SnippetFits side Says) ss
      → (n : ℕ) × (sizes_from quotient kind_and kind_equal mce side' ws_enable ss total ≡ some n)
  unfolding sizes_from
  sizes_from-some a k mce side' ws [] total h = (total, refl)
  sizes_from-some a k mce side' ws (s ∷ ss) total h =
      elim (Bool-cases (bit_and (flags_value s.flags) a == k)) [
        | inl e ↦
            let (n, is_n) = data_size-some mce s.flags.expression_found s.expr s.bytes h.0 in
            let (m, is_m) =
              sizes_from-some a k mce side' ws ss
                (add_size total (with_header quotient mce side' ws n)) h.1 in
            (m, rw e (rw is_n is_m))
        | inr e ↦ let (m, is_m) = sizes_from-some a k mce side' ws ss total h.1 in (m, rw e is_m)
      ]

not_embryonic : (s : State) → s ≢ embryonic → embryonic_state s ≡ false
not_embryonic embryonic h = absurd (h refl)
not_embryonic finalized_plain_tcp h = refl
not_embryonic finalized_websocket h = refl

allocated_enough : (size : ℕ) → 65535 ≤ (empty_spec size).allocated_size
allocated_enough size = elim (Bool-cases (ltb size 65535)) [
  | inl e ↦ rw e (omega arith)
  | inr e ↦ rw e (ground arith)
]

module _ (side : Side) (Says : Field → Bytes → Type 0) {W : Type 0}
    (callback : Field → ℕ → ℕ → W → Answer W) (rand : W → ℕ → ℕ × W)
    (bounded : (w : W) (n : ℕ) → 0 < n → (rand w n).0 < n)
    (answers : (f : Field) (at size : ℕ) (w : W)
      → field_size f ≤ size
      → (s : Bytes) × ((callback f at size w).outcome ≡ wrote s)
        × (length s ≤ field_size f)
        × Says f s
        × IsShort (callback f at size w).value) where
  -- The spec holds the pieces of the snippets and nothing else, with the right sizes, in its buffer.
  abbrev pub Whole : Bool → List Snippet → Step W → Type 0
  Whole websocket ss r =
      (b : Work W) × (r ≡ next b)
      × Pieces side Says websocket ss b.spec.contents b.spec.ws_hdr_size b.spec.once_size
          b.spec.single_message_size
      × (total_size b.spec ≤ b.spec.allocated_size)

  -- A pass that ends with nothing more to place is the last one.
  passes_once :
      (websocket : Bool) (ss : List Snippet) (rounds : ℕ) (start b : Work W)
      → place_all callback rand initial websocket side ss
          (restart callback rand initial websocket side initial start)
        ≡ next b
      → b.place_multiple_messages ≡ false
      → passes callback rand initial websocket side (rounds + 2) ss start ≡ next b
  unfolding passes
  passes_once websocket ss rounds start b e p =
      ap (λ k. passes callback rand initial websocket side k ss start) (two rounds)
      ∙ ap
          (again callback rand initial websocket side
            (passes callback rand initial websocket side (suc rounds)))
          e
      ∙ ap
          (λ k.
            if k
            then passes callback rand initial websocket side (suc rounds) b.passed b
            else next b)
          p
    where
      two : (n : ℕ) → n + 2 ≡ suc (suc n)
      two n = omega arith

  convert-Whole :
      (websocket : Bool) (ss : List Snippet) (size : ℕ) (w : W)
      → All (SnippetFits side Says) ss
      → all_needed ss ≤ 65535
      → Whole websocket ss (convert callback rand initial websocket side ss (empty_spec size) w)
  unfolding convert
  convert-Whole websocket ss size w fits room =
      let start : Work W = record {
        spec = empty_spec size;
        passed = [];
        place_multiple_messages = false;
        multiple = false;
        world = w;
      } in
      let (b, out, hdr, once, single, e, pieces, c, h, n, m, a, p, short) =
        place_all-FilledAs side Says callback rand bounded answers websocket ss start fits
          (omega (arith, allocated_enough size)) in
      let within : total_size b.spec ≤ b.spec.allocated_size =
        omega (arith, ap length c, a, allocated_enough size) in
      (
        b,
        ap (asserted callback rand initial websocket side)
              (passes_once websocket ss (empty_spec size).allocated_size start b e p)
            ∙ rw (le→not-ltb b.spec.allocated_size (total_size b.spec) within) refl,
        all_same (sym c) (omega (arith, h)) (omega (arith, n)) (omega (arith, m)) pieces,
        within,
      )
    where
      all_same :
          {out out' : Bytes} {hdr hdr' once once' single single' : ℕ}
          → out ≡ out'
          → hdr ≡ hdr'
          → once ≡ once'
          → single ≡ single'
          → Pieces side Says websocket ss out hdr once single
          → Pieces side Says websocket ss out' hdr' once' single'
      all_same {out} {out'} {hdr} {hdr'} {once} {once'} {single} {single'} a b c d pieces =
          subst (λ x. Pieces side Says websocket ss out' hdr' once' x) d
            (subst (λ x. Pieces side Says websocket ss out' hdr' x single) c
              (subst (λ x. Pieces side Says websocket ss out' x once single) b
                (subst (λ x. Pieces side Says websocket ss x hdr once single) a pieces)))

  -- For a finalized collection whose expressions fit and whose snippets, with the largest header for
  -- each, need no more than 65535 bytes, the initial conversion succeeds. The buffer holds for each
  -- snippet in turn its frame with its data, nothing else and not more than was allocated, and the
  -- sizes of the headers, of what is sent once and of the messages are those of their pieces.
  pub initial_spec_total :
      (quotient : ℕ → ℕ → ℕ) (mc : Collection) (w : W)
      → mc.state ≢ embryonic
      → All (SnippetFits side Says) mc.snippets
      → all_needed mc.snippets ≤ 65535
      → Whole (is_websocket mc.state) mc.snippets (initial_spec callback rand quotient side mc w)
  unfolding initial_spec estimate_size
  initial_spec_total quotient mc w final fits room =
      let (n, is_n) =
        sizes_from-some side Says quotient 0 0 maximum_size side true mc.snippets 0 fits in
      let (b, e, pieces, within) =
        convert-Whole (is_websocket mc.state) mc.snippets n w fits room in
      (
        b,
        ap
              (λ k.
                of_size callback rand quotient side
                  (if k then none else sizes_from quotient 0 0 maximum_size side true mc.snippets 0)
                  (λ size.
                    convert callback rand initial (is_websocket mc.state) side mc.snippets
                      (empty_spec size) w))
              (not_embryonic mc.state final)
            ∙ ap
                (λ k. of_size callback rand quotient side k (λ size.
                  convert callback rand initial (is_websocket mc.state) side mc.snippets
                    (empty_spec size) w))
                is_n
            ∙ e,
        pieces,
        within,
      )
