-- ===== src/Transport/Tests.antt =====
-- Runs of the message collection and of its conversion on small inputs.
use tcpkali.Base.{ℕ, ◌+◌, ◌-◌, ◌/◌, ◌%◌, ◌<◌, ◌≡◌, refl, [], ◌∷◌, none, some, arith, true, false}
use tcpkali.WebSocket.Detect.{codes}
use tcpkali.WebSocket.Frame.{frame_header, client, ping}
use tcpkali.Expr.{
  global_fixed, per_connection, per_message, Meta, Expr, expr, text, ws_frame, connection_uid,
  message_marker,
}
use tcpkali.Expr.Build.{concat_both}
use tcpkali.Expr.Build.Split.{leaves}
use tcpkali.Expr.Eval.Fits.{Fits, NodeFits}
use tcpkali.Engine.Fields.{Connection, Says, answer_field, answer_field_fits}
use tcpkali.Transport.{first_msg, message, Snippet, embryonic, finalized_websocket, Collection}
use tcpkali.Transport.Collect.{add_expr, rounds, plain_flags, prefix_flags}
use tcpkali.Transport.Collect.Order.{IsWell, Extends}
use tcpkali.Transport.Collect.Rounds.{add_expr_total}
use tcpkali.Transport.Finalize.{sort, insert}
use tcpkali.Transport.Finalize.Laws.{by_purpose, sort-by_purpose}
use tcpkali.Transport.Payload.{DataSpec, replicate_payload}
use tcpkali.Transport.Payload.Laws.{IsCeil, Repeated, replicate_payload_total}
use tcpkali.Transport.Convert.{Work, override_messages, place_data, fault}
use tcpkali.Transport.Convert.Passes.{initial_spec}
use tcpkali.Transport.Convert.Whole.{Whole, initial_spec_total}
use tcpkali.Transport.Convert.Tight.{one_expression, initial_spec_tight, place_data_tight}

abbrev counter : ℕ → ℕ → ℕ × ℕ
counter g b = (g % b, g + 1)

counter_below : (g b : ℕ) → 0 < b → (counter g b).0 < b
counter_below g b h = omega arith

abbrev half : ℕ → ℕ → ℕ
half a b = a

abbrev conn : Connection
conn = record { address = 4096; connection_unique_id = 23 }

abbrev fresh : ℕ → Meta
fresh size = record { estimate_size = size; dynamic_scope = global_fixed; res = none }

abbrev marked : Expr
marked =
    expr (record { estimate_size = 30; dynamic_scope = per_message; res = none }) message_marker

abbrev pinged : Expr
pinged =
    expr (fresh 16) (ws_frame (record { bytes = codes "hi"; opcode = ping; rsvs = 0; fin = 1 }))

-- id\{ws.ping "hi"}\{message.marker}
abbrev sample : Expr
sample = concat_both (expr (fresh 2) (text (codes "id"))) (concat_both pinged marked)

abbrev empty : Collection
empty = record {
  snippets = [];
  snippets_size = 0;
  most_dynamic_expression = global_fixed;
  state = embryonic;
}

add_expr_total_example :
    (mc : Collection) × (add_expr (rounds sample) message empty sample ≡ some mc)
    × IsWell mc
    × Extends empty mc (leaves sample) message
add_expr_total_example = add_expr_total message empty sample (tt, tt, omega arith)

abbrev greeting : Snippet
greeting = record {
  bytes = codes "hello";
  expr = none;
  flags = plain_flags message;
  sort_index = 0;
}

abbrev marker_snippet : Snippet
marker_snippet = record {
  bytes = [];
  expr = some marked;
  flags = prefix_flags message;
  sort_index = 1;
}

abbrev hint : Snippet
hint = record { bytes = codes "x"; expr = none; flags = plain_flags first_msg; sort_index = 2 }

sort-by_purpose_example :
    sort (greeting ∷ marker_snippet ∷ hint ∷ [])
    ≡ by_purpose (greeting ∷ marker_snippet ∷ hint ∷ [])
sort-by_purpose_example =
    sort-by_purpose 0 (greeting ∷ marker_snippet ∷ hint ∷ []) (refl, (refl, (refl, tt)))

sort_runs : sort (greeting ∷ marker_snippet ∷ hint ∷ []) ≡ hint ∷ greeting ∷ marker_snippet ∷ []
unfolding sort insert
sort_runs = refl

abbrev small : DataSpec
small = record {
  contents = codes "onceab";
  ws_hdr_size = 0;
  once_size = 4;
  allocated_size = 10;
  single_message_size = 2;
  marker_token_ptr = none;
  ptr_shared = false;
  is_replicated = false;
}

abbrev quotient_up : ℕ → ℕ → ℕ
quotient_up n m = (n + (m - 1)) / m

quotient_up-IsCeil : IsCeil quotient_up
quotient_up-IsCeil n m low pos lower = grind arith

replicate_payload_total_example :
    (d : DataSpec) × (replicate_payload quotient_up small 5 ≡ some d) × Repeated small 5 d
replicate_payload_total_example =
    replicate_payload_total quotient_up quotient_up-IsCeil small 5 refl refl (omega arith)
      (omega arith) (omega arith)

abbrev finished : Collection
finished = record {
  snippets = hint ∷ greeting ∷ marker_snippet ∷ [];
  snippets_size = 16;
  most_dynamic_expression = per_message;
  state = finalized_websocket;
}

marked-Fits : Fits client (Says conn) marked
unfolding Fits NodeFits
marked-Fits = ((λ s e. cc), omega arith)

initial_spec_total_example :
    Whole client
      (Says conn)
      (answer_field conn)
      counter
      counter_below
      (answer_field_fits conn (omega arith) (omega arith))
      true
      (hint ∷ greeting ∷ marker_snippet ∷ [])
      (initial_spec (answer_field conn) counter half client finished 5)
initial_spec_total_example =
    initial_spec_total client (Says conn) (answer_field conn) counter counter_below
      (answer_field_fits conn (omega arith) (omega arith)) half finished 5 (λ e. cc)
      (tt, (tt, (marked-Fits, tt))) (omega arith)

abbrev long_field : Expr
long_field =
    expr (record { estimate_size = 65530; dynamic_scope = per_connection; res = none })
      connection_uid

initial_spec_tight_example :
    initial_spec (answer_field conn) counter half client (one_expression message long_field) 5
    ≡ fault
initial_spec_tight_example =
    initial_spec_tight (answer_field conn) counter client half message long_field 5 (omega arith)
      (omega arith)

-- Five bytes left for a message of five bytes.
abbrev almost_full : Work ℕ
almost_full = record {
  spec = record {
    contents = codes "onceab";
    ws_hdr_size = 0;
    once_size = 4;
    allocated_size = 11;
    single_message_size = 2;
    marker_token_ptr = none;
    ptr_shared = false;
    is_replicated = false;
  };
  passed = [];
  place_multiple_messages = true;
  multiple = false;
  world = 5;
}

place_data_tight_example :
    place_data (answer_field conn) counter override_messages true client greeting almost_full
    ≡ fault
place_data_tight_example =
    place_data_tight (answer_field conn) counter override_messages client greeting almost_full refl
      refl (omega arith) (unfold frame_header in omega arith)
