-- ===== src/Transport/Convert/Tight.antt =====
-- Where the estimate of the initial conversion is too tight for its own check.
use tcpkali.Base.{
  ℕ, suc, ◌+◌, ◌-◌, ◌≤◌, ◌<◌, ◌≡◌, refl, ap, ◌∙◌, Bool, true, false, ◌&&◌, Bytes, [], ◌∷◌, ◌++◌,
  some, length, length-append, ltb, lt→ltb, le→not-ltb, if◌then◌else◌, arith,
}
use tcpkali.WebSocket.Frame.{Side, client, server, text_frame, frame_header}
use tcpkali.WebSocket.Frame.Laws.{length-frame_header}
use tcpkali.Regex.Build.{add_size}
use tcpkali.Expr.{Expr, estimate, scope}
use tcpkali.Expr.Eval.{Field, Answer}
use tcpkali.Transport.{
  Purpose, http_header, first_msg, message, Snippet, finalized_plain_tcp, Collection,
}
use tcpkali.Transport.Collect.{prefix_flags, is_header}
use tcpkali.Transport.Size.{
  maximum_size, with_header, ws_header_size_estimate, sizes_from, estimate_size,
}
use tcpkali.Transport.Payload.{total_size}
use tcpkali.Transport.Convert.{
  Conversion, initial, Work, Step, next, fault, is_server, pass, finish, no_room, skipped,
  place_expr, place_data, place_one, place_all,
}
use tcpkali.Transport.Convert.Passes.{empty_spec, passes, asserted, convert, of_size, initial_spec}

-- A collection of one expression for a connection that is no WebSocket.
abbrev pub one_expression : Purpose → Expr → Collection
one_expression kind e = record {
  snippets = (record { bytes = []; expr = some e; flags = prefix_flags kind; sort_index = 0 }) ∷ [];
  snippets_size = 16;
  most_dynamic_expression = scope e;
  state = finalized_plain_tcp;
}

largest_header :
    (side : Side) (n : ℕ) → 126 ≤ n → n ≤ 65535 → ws_header_size_estimate maximum_size side n ≡ 8
unfolding ws_header_size_estimate
largest_header side n lo hi = ground (
  arith,
  length-frame_header client text_frame 0 1 n,
  length-frame_header server text_frame 0 1 n,
)

one_size :
    (quotient : ℕ → ℕ → ℕ) (side : Side) (n : ℕ)
    → 126 ≤ n
    → n ≤ 65535
    → some (add_size 0 (with_header quotient maximum_size side true n)) ≡ some (n + 8)
one_size quotient side n lo hi = rw (largest_header side n lo hi) (ap some (omega arith))

estimate_one :
    (quotient : ℕ → ℕ → ℕ) (side : Side) (kind : Purpose) (e : Expr)
    → 126 ≤ estimate e
    → estimate e ≤ 65535
    → estimate_size quotient (one_expression kind e) 0 0 maximum_size side true
      ≡ some (estimate e + 8)
unfolding estimate_size sizes_from
estimate_one quotient side http_header e lo hi = one_size quotient side (estimate e) lo hi
estimate_one quotient side first_msg e lo hi = one_size quotient side (estimate e) lo hi
estimate_one quotient side message e lo hi = one_size quotient side (estimate e) lo hi

too_small : (n : ℕ) → 65522 ≤ n → (empty_spec (n + 8)).allocated_size < 0 + 14 + n
too_small n lo = ground arith

module _ {W : Type 0} (callback : Field → ℕ → ℕ → W → Answer W) (rand : W → ℕ → ℕ × W)
    (side : Side) where
  convert-fault :
      (kind : Purpose) (e : Expr) (w : W)
      → 65522 ≤ estimate e
      → convert callback rand initial false side
          (one_expression kind e).snippets
          (empty_spec (estimate e + 8))
          w
        ≡ fault
  unfolding convert passes place_all place_one place_expr
  convert-fault kind e w lo =
      ap
        (λ k.
          asserted callback rand initial false side
            (passes callback rand initial false side k (one_expression kind e).snippets start))
        (two (empty_spec (estimate e + 8)).allocated_size)
      ∙ rw
          (lt→ltb (empty_spec (estimate e + 8)).allocated_size (0 + 14 + estimate e)
            (too_small (estimate e) lo))
          refl
    where
      two : (n : ℕ) → n + 2 ≡ suc (suc n)
      two n = omega arith

      start : Work W
      start = record {
        spec = empty_spec (estimate e + 8);
        passed = [];
        place_multiple_messages = false;
        multiple = false;
        world = w;
      }

  -- A single expression with an estimated size from 65522 to 65535, sent without WebSocket framing,
  -- makes the initial conversion fail its assertion: the estimate adds at most 8 bytes for a header,
  -- and the check asks for room for one of 14.
  pub initial_spec_tight :
      (quotient : ℕ → ℕ → ℕ) (kind : Purpose) (e : Expr) (w : W)
      → 65522 ≤ estimate e
      → estimate e ≤ 65535
      → initial_spec callback rand quotient side (one_expression kind e) w ≡ fault
  unfolding initial_spec
  initial_spec_tight quotient kind e w lo hi =
      ap
        (λ k. of_size callback rand quotient side k (λ size.
          convert callback rand initial false side (one_expression kind e).snippets
            (empty_spec size) w))
        (estimate_one quotient side kind e (omega arith) hi)
      ∙ convert-fault kind e w lo

module _ {W : Type 0} (callback : Field → ℕ → ℕ → W → Answer W) (rand : W → ℕ → ℕ × W)
    (tconv : Conversion) (side : Side) where
  -- A plain message that just fits behind what is in the buffer, but not with the header of its
  -- frame, is not kept for a later conversion: the assertion for the header fails, or the data is
  -- written behind the end of the buffer.
  pub place_data_tight :
      (s : Snippet) (b : Work W)
      → s.flags.purpose ≡ message
      → s.flags.framing_requested ≡ true
      → total_size b.spec + length s.bytes ≤ b.spec.allocated_size
      → b.spec.allocated_size + 1
        < total_size b.spec
          + length (frame_header side text_frame 0 1 (length s.bytes))
          + length s.bytes
      → place_data callback rand tconv true side s b ≡ fault
  unfolding place_data
  place_data_tight s b is_message asked fits over =
      ap (λ k. if k then no_room tconv b else checked)
        (le→not-ltb b.spec.allocated_size (total_size b.spec + length s.bytes) fits)
      ∙ ap (λ k. if is_server side && is_header k then passed_over else written) is_message
      ∙ ap (λ k. if k then passed_over else written) (and_false (is_server side))
      ∙ ap (λ k. framed_written k (ltb (b.spec.allocated_size - total_size b.spec) 14)) asked
      ∙ both (ltb (b.spec.allocated_size - total_size b.spec) 14)
    where
      and_false : (b : Bool) → (b && false) ≡ false
      and_false true = refl
      and_false false = refl

      passed_over : Step W
      passed_over = next (pass s b.multiple b.world b.spec b)

      frame : Bytes
      frame = frame_header side text_frame 0 1 (length s.bytes)

      framed_written : Bool → Bool → Step W
      framed_written asks little =
          if asks && little
          then fault
          else finish s ((if asks then frame else []) ++ s.bytes) b.spec.marker_token_ptr b.multiple
              b.world b

      written : Step W
      written =
          framed_written s.flags.framing_requested
            (ltb (b.spec.allocated_size - total_size b.spec) 14)

      both : (little : Bool) → framed_written true little ≡ fault
      both true = refl
      both false =
          rw
            (lt→ltb (b.spec.allocated_size + 1) (total_size b.spec + length (frame ++ s.bytes))
              (omega (arith, length-append frame s.bytes)))
            refl

      checked : Step W
      checked = if skipped true side s then passed_over else written
