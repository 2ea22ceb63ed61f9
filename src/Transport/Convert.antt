-- ===== src/Transport/Convert.antt =====
-- `callback_wrapper` and `transport_spec_from_message_collection` of src/tcpkali_transport.c. The
-- buffer has `allocated_size + 1` bytes, and an offset in it stands for a pointer into it. `fault` is
-- a failed assertion, a write behind the buffer or a NULL pointer followed.
pub mod Passes
pub mod Pieces
pub mod Place
pub mod Fill
pub mod Whole
pub mod Tight
use tcpkali.Base.{
  ℕ, zero, suc, ◌+◌, ◌-◌, ◌*◌, ◌<◌, Bool, true, false, not, ◌&&◌, Bytes, List, [], ◌∷◌, ◌++◌,
  Option, none, some, length, take, ltb, ◌==◌, if◌then◌else◌,
}
use tcpkali.WebSocket.Frame.{Side, client, server, text_frame, frame_header, max_frame_hdr_size}
use tcpkali.Expr.{ℤ, Expr, estimate}
use tcpkali.Expr.Eval.{Outcome, wrote, Field, ptr, uid, marker, Answer, Result, eval}
use tcpkali.Transport.{
  Purpose, http_header, first_msg, message, Flags, Snippet, State, finalized_websocket, Collection,
}
use tcpkali.Transport.Collect.{is_header}
use tcpkali.Transport.Size.{header_size, maximum_size, estimate_size}
use tcpkali.Transport.Payload.{DataSpec, total_size}

pub data Conversion : Type 0 where
  initial override_messages : Conversion

-- `callback_wrapper_key_t`, where `*marker_ptr_ptr` is `marker_ptr`, with the state of the callback.
pub record Key (W : Type 0) : Type 0 where
  pub marker_ptr : Option ℕ
  pub multiple_message_markers : Bool
  pub world : W

abbrev pub is_message : Purpose → Bool
is_message message = true
is_message p = false

abbrev pub is_websocket : State → Bool
is_websocket finalized_websocket = true
is_websocket s = false

abbrev pub is_server : Side → Bool
is_server server = true
is_server client = false

-- The marker's place after an expression: `marker_token_ptr`, `marker_ptr` and whether there are more.
abbrev pub note_marker : Option ℕ → Option ℕ → Bool → Option ℕ × (Option ℕ × Bool)
note_marker token found true = (none, (none, true))
note_marker token none false = (token, (none, false))
note_marker (some t) (some m) false = (none, (none, true))
note_marker none (some m) false = (some m, (some m, false))

-- The header turned out shorter than the estimated one, and the data was moved to the left.
abbrev pub moved_marker : Option ℕ → Option ℕ → ℕ → Option ℕ
moved_marker token none left = token
moved_marker token (some m) left = some (m - left)

-- The spec under construction, the snippets passed with their expressions as evaluated, and the
-- local variables.
pub record Work (W : Type 0) : Type 0 where
  pub spec : DataSpec
  pub passed : List Snippet
  pub place_multiple_messages : Bool
  pub multiple : Bool
  pub world : W

pub data Step (W : Type 0) : Type 0 where
  next stop : Work W → Step W
  fault : Step W

abbrev pub counted : Purpose → ℕ → Bytes → Option ℕ → DataSpec → DataSpec
counted p size s token d = record {
  contents = d.contents ++ s;
  ws_hdr_size = if is_header p then d.ws_hdr_size + size else d.ws_hdr_size;
  once_size = if is_message p then d.once_size else d.once_size + size;
  allocated_size = d.allocated_size;
  single_message_size =
      if is_message p then d.single_message_size + size else d.single_message_size;
  marker_token_ptr = token;
  ptr_shared = d.ptr_shared;
  is_replicated = d.is_replicated;
}

abbrev pub with_token : Option ℕ → DataSpec → DataSpec
with_token token d = record {
  contents = d.contents;
  ws_hdr_size = d.ws_hdr_size;
  once_size = d.once_size;
  allocated_size = d.allocated_size;
  single_message_size = d.single_message_size;
  marker_token_ptr = token;
  ptr_shared = d.ptr_shared;
  is_replicated = d.is_replicated;
}

module _ {W : Type 0} where
  abbrev pub pass : Snippet → Bool → W → DataSpec → Work W → Work W
  pass s multiple w d b = record {
    spec = d;
    passed = b.passed ++ (s ∷ []);
    place_multiple_messages = b.place_multiple_messages;
    multiple = multiple;
    world = w;
  }

  abbrev pub marked : Bool → Work W → Work W
  marked place b = record {
    spec = b.spec;
    passed = b.passed;
    place_multiple_messages = place;
    multiple = b.multiple;
    world = b.world;
  }

  -- The end of a round: `piece` is the frame with its data.
  abbrev pub finish : Snippet → Bytes → Option ℕ → Bool → W → Work W → Step W
  finish s piece token multiple w b =
      if ltb (b.spec.allocated_size + 1) (total_size b.spec + length piece)
      then fault
      else next (pass s multiple w (counted s.flags.purpose (length piece) piece token b.spec) b)

  -- There is no room for another message.
  abbrev pub no_room : Conversion → Work W → Step W
  no_room initial b = fault
  no_room override_messages b = stop (marked false b)

abbrev pub framed : Bool → Snippet → Bool
framed websocket s = websocket && s.flags.framing_requested

module _ (websocket : Bool) (side : Side) where
  abbrev pub header : Snippet → ℕ → Bytes
  header s n = if framed websocket s then frame_header side text_frame 0 1 n else []

  -- The server makes no header of a request.
  abbrev pub skipped : Snippet → Bool
  skipped s = websocket && (is_server side && is_header s.flags.purpose)

module _ {W : Type 0} (callback : Field → ℕ → ℕ → W → Answer W) (rand : W → ℕ → ℕ × W)
    (tconv : Conversion) (websocket : Bool) (side : Side) where
  -- A second marker, and any behind it, leaves no marker's place.
  abbrev pub wrapped_key : Field → ℕ → Key W → W → Key W
  wrapped_key marker at k w = seen k.marker_ptr k.multiple_message_markers
    where
      seen : Option ℕ → Bool → Key W
      seen none false = record { marker_ptr = some at; multiple_message_markers = false; world = w }
      seen other multiple = record { marker_ptr = none; multiple_message_markers = true; world = w }
  wrapped_key f at k w = record {
    marker_ptr = k.marker_ptr;
    multiple_message_markers = k.multiple_message_markers;
    world = w;
  }

  abbrev pub callback_wrapper : Field → ℕ → ℕ → Key W → Answer (Key W)
  callback_wrapper f at size k =
      let a = callback f at size k.world in
      record { outcome = a.outcome; value = a.value; world = wrapped_key f at k a.world }

  abbrev pub wrapped_rand : Key W → ℕ → ℕ × Key W
  wrapped_rand k n =
      let (i, w) = rand k.world n in
      (
        i,
        record {
          marker_ptr = k.marker_ptr;
          multiple_message_markers = k.multiple_message_markers;
          world = w;
        },
      )

  abbrev pub with_expr : Snippet → Expr → Snippet
  with_expr s e = record {
    bytes = s.bytes;
    expr = some e;
    flags = s.flags;
    sort_index = s.sort_index;
  }

  -- The round of an expression behind its evaluation to `t`, where `room` was left for the header.
  abbrev pub place_string : Snippet → ℕ → Bytes → Option ℕ → Option ℕ → Bool → W → Work W → Step W
  place_string s room t token found multiple w b =
      if skipped websocket side s
      then next (pass s multiple w (with_token token b.spec) b)
      else if ltb room (length (header websocket side s (length t)))
      then fault
      else finish s (header websocket side s (length t) ++ t)
          (if length (header websocket side s (length t)) == room
            then token
            else moved_marker token found (room - length (header websocket side s (length t))))
          multiple w b

  abbrev pub place_result : Snippet → ℕ → Outcome → Expr → Key W → Work W → Step W
  place_result s room (wrote t) e k b =
      let (token, (found, multiple)) =
        note_marker b.spec.marker_token_ptr k.marker_ptr k.multiple_message_markers in
      place_string (with_expr s e) room t token found multiple k.world b
  place_result s room outcome e k b = fault

  abbrev pub key_of : Work W → Key W
  key_of b = record { marker_ptr = none; multiple_message_markers = b.multiple; world = b.world }

  unfoldable pub place_expr : Snippet → Expr → Work W → Step W
  place_expr s e b =
      let room = length (header websocket side s (estimate e)) in
      let at = total_size b.spec + room in
      let r =
        eval callback_wrapper wrapped_rand side e at (b.spec.allocated_size - at) (key_of b) in
      if ltb b.spec.allocated_size (total_size b.spec + max_frame_hdr_size + estimate e)
      then no_room tconv b
      else place_result s room r.outcome r.part r.world b

  -- The header is written only where its largest size has room.
  unfoldable pub place_data : Snippet → Work W → Step W
  place_data s b =
      if ltb b.spec.allocated_size (total_size b.spec + length s.bytes)
      then no_room tconv b
      else if skipped websocket side s
      then next (pass s b.multiple b.world b.spec b)
      else if framed websocket s
          && ltb (b.spec.allocated_size - total_size b.spec) max_frame_hdr_size
      then fault
      else finish s (header websocket side s (length s.bytes) ++ s.bytes) b.spec.marker_token_ptr
          b.multiple b.world b

  abbrev pub place_kind : Bool → Option Expr → Snippet → Work W → Step W
  place_kind true (some e) s b = place_expr s e b
  place_kind true none s b = fault
  place_kind false e s b = place_data s b

  abbrev pub only_messages : Conversion → Bool → Bool
  only_messages initial p = false
  only_messages override_messages p = not p

  abbrev pub placing : Conversion → Work W → Work W
  placing initial b = b
  placing override_messages b = marked true b

  unfoldable pub place_one : Snippet → Work W → Step W
  unfolding place_expr place_data
  place_one s b =
      if only_messages tconv (is_message s.flags.purpose)
      then next (pass s b.multiple b.world b.spec b)
      else place_kind s.flags.expression_found s.expr s (placing tconv b)

  abbrev pub left_over : List Snippet → Work W → Work W
  left_over ss b = record {
    spec = b.spec;
    passed = b.passed ++ ss;
    place_multiple_messages = b.place_multiple_messages;
    multiple = b.multiple;
    world = b.world;
  }

  abbrev pub go_on : Step W → List Snippet → (Work W → Step W) → Step W
  go_on (next b) ss then_next = then_next b
  go_on (stop b) ss then_next = stop (left_over ss b)
  go_on fault ss then_next = fault

  -- The inner loop.
  unfoldable pub place_all : List Snippet → Work W → Step W
  unfolding place_one
  place_all [] b = next b
  place_all (s ∷ ss) b = go_on (place_one s b) (s ∷ ss) (place_all ss)
