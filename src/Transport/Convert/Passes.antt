-- ===== src/Transport/Convert/Passes.antt =====
-- The outer loop of `transport_spec_from_message_collection`, and the two conversions as a whole.
use tcpkali.Base.{
  ℕ, zero, suc, ◌+◌, ◌-◌, ◌*◌, Bool, true, false, List, [], Option, none, some, take, ltb,
  if◌then◌else◌,
}
use tcpkali.WebSocket.Frame.{Side}
use tcpkali.Expr.Eval.{Field, Answer}
use tcpkali.Transport.{Snippet, Collection}
use tcpkali.Transport.Size.{maximum_size, estimate_size}
use tcpkali.Transport.Payload.{DataSpec, total_size}
use tcpkali.Transport.Convert.{
  Conversion, initial, override_messages, is_websocket, Work, Step, next, stop, fault, place_all,
}

module _ {W : Type 0} (callback : Field → ℕ → ℕ → W → Answer W) (rand : W → ℕ → ℕ × W)
    (tconv : Conversion) (websocket : Bool) (side : Side) where
  abbrev pub restarted : ℕ → Work W → Work W
  restarted single b = record {
    spec = record {
      contents = b.spec.contents;
      ws_hdr_size = b.spec.ws_hdr_size;
      once_size = b.spec.once_size;
      allocated_size = b.spec.allocated_size;
      single_message_size = single;
      marker_token_ptr = b.spec.marker_token_ptr;
      ptr_shared = b.spec.ptr_shared;
      is_replicated = b.spec.is_replicated;
    };
    passed = [];
    place_multiple_messages = b.place_multiple_messages;
    multiple = b.multiple;
    world = b.world;
  }

  -- "We'll rebuild the message anew".
  abbrev pub restart : Conversion → Work W → Work W
  restart initial b = restarted b.spec.single_message_size b
  restart override_messages b = restarted 0 b

  abbrev pub again : (List Snippet → Work W → Step W) → Step W → Step W
  again more (next b) = if b.place_multiple_messages then more b.passed b else next b
  again more (stop b) = next b
  again more fault = fault

  -- The outer loop.
  unfoldable pub passes : ℕ → List Snippet → Work W → Step W
  unfolding place_all
  passes zero ss b = fault
  passes (suc rounds) ss b =
      again (passes rounds) (place_all callback rand tconv websocket side ss (restart tconv b))

  abbrev pub asserted : Step W → Step W
  asserted (next b) = if ltb b.spec.allocated_size (total_size b.spec) then fault else next b
  asserted s = fault

  -- The rounds are more than the buffer has bytes.
  unfoldable pub convert : List Snippet → DataSpec → W → Step W
  unfolding passes
  convert ss d w = asserted (
      passes (d.allocated_size + 2) ss (record {
        spec = d;
        passed = [];
        place_multiple_messages = false;
        multiple = false;
        world = w;
      }))

abbrev pub replicate_max_size : ℕ
replicate_max_size = 64 * 1024 - 1

abbrev pub empty_spec : ℕ → DataSpec
empty_spec size = record {
  contents = [];
  ws_hdr_size = 0;
  once_size = 0;
  allocated_size = if ltb size replicate_max_size then replicate_max_size else size;
  single_message_size = 0;
  marker_token_ptr = none;
  ptr_shared = false;
  is_replicated = false;
}

-- `total_size` goes back to the part that is sent once.
abbrev pub rewound : DataSpec → DataSpec
rewound d = record {
  contents = take d.once_size d.contents;
  ws_hdr_size = d.ws_hdr_size;
  once_size = d.once_size;
  allocated_size = d.allocated_size;
  single_message_size = d.single_message_size;
  marker_token_ptr = d.marker_token_ptr;
  ptr_shared = d.ptr_shared;
  is_replicated = d.is_replicated;
}

module _ {W : Type 0} (callback : Field → ℕ → ℕ → W → Answer W) (rand : W → ℕ → ℕ × W)
    (quotient : ℕ → ℕ → ℕ) (side : Side) where
  abbrev pub of_size : Option ℕ → (ℕ → Step W) → Step W
  of_size none then_next = fault
  of_size (some n) then_next = then_next n

  -- The conversion with a callback; `out_spec` is empty.
  unfoldable pub initial_spec : Collection → W → Step W
  unfolding convert estimate_size
  initial_spec mc w = of_size (estimate_size quotient mc 0 0 maximum_size side true) (λ size.
      convert callback rand initial (is_websocket mc.state) side mc.snippets (empty_spec size) w)

  unfoldable pub override_spec : Collection → DataSpec → W → Step W
  unfolding convert
  override_spec mc d w =
      convert callback rand override_messages (is_websocket mc.state) side mc.snippets (rewound d) w
