-- ===== src/Expr/Tests.antt =====
-- Runs of the expressions on small inputs.
use tcpkali.Base.{
  ℕ, ◌+◌, ◌%◌, ◌≤◌, ◌<◌, ◌^◌, ◌≡◌, refl, ◌↔◌, Bytes, [], ◌∷◌, none, some, length, arith,
}
use tcpkali.WebSocket.Detect.{codes}
use tcpkali.WebSocket.Frame.{server, ping}
use tcpkali.Expr.{
  pos, global_fixed, per_connection, Meta, Expr, expr, text, ws_frame, modulo, connection_uid,
  estimate, scope,
}
use tcpkali.Expr.Decimal.{digits_within}
use tcpkali.Expr.Eval.{wrote, Field, uid, again, eval, eval_node}
use tcpkali.Expr.Eval.Fits.{IsShort, field_size, Denotes, Fits, NodeFits}
use tcpkali.Expr.Eval.Total.{eval_total}
use tcpkali.Expr.Eval.Again.{eval-again}
use tcpkali.Expr.Build.{concat_both, EswResult, split_by_websocket_frame, unescape_expression}
use tcpkali.Expr.Build.Split.{Splits, split_total}
use tcpkali.Expr.Build.Average.{digit_sum, total_digits, digit_sum_total}
use tcpkali.Expr.Build.Unescape.{IsFresh, IsFreshNode, unescape_expression-Fits}
use tcpkali.Engine.Fields.{Connection, Says, answer_field, answer_field_fits, expr_callback}

abbrev counter : ℕ → ℕ → ℕ × ℕ
counter g b = (g % b, g + 1)

counter_below : (g b : ℕ) → 0 < b → (counter g b).0 < b
counter_below g b h = omega arith

abbrev conn : Connection
conn = record { address = 4096; connection_unique_id = 23 }

abbrev fresh : ℕ → Meta
fresh size = record { estimate_size = size; dynamic_scope = global_fixed; res = none }

abbrev per_conn : ℕ → Meta
per_conn size = record { estimate_size = size; dynamic_scope = per_connection; res = none }

-- \{connection.uid % 7}
abbrev number : Expr
number = expr (per_conn 16) (modulo (expr (per_conn 16) connection_uid) (pos 7))

abbrev pinged : Expr
pinged =
    expr (fresh 16) (ws_frame (record { bytes = codes "hi"; opcode = ping; rsvs = 0; fin = 1 }))

-- \{connection.uid % 7}id\{ws.ping "hi"}
abbrev sample : Expr
sample = concat_both number (concat_both (expr (fresh 2) (text (codes "id"))) pinged)

eval-number : (eval (answer_field conn) counter server number 0 16 5).outcome ≡ wrote (codes "2")
unfolding eval eval_node answer_field expr_callback digits_within
eval-number = refl

kept_number : scope (eval (answer_field conn) counter server number 0 16 5).part ≡ per_connection
unfolding eval eval_node answer_field expr_callback digits_within
kept_number = refl

number-Fits : Fits server (Says conn) number
unfolding Fits NodeFits
number-Fits = ((λ s e. cc), (omega arith, omega arith, omega arith, ((λ s e. cc), omega arith)))

sample-Fits : Fits server (Says conn) sample
unfolding Fits NodeFits
sample-Fits = (
  (λ s e. cc),
  (
    omega arith,
    omega arith,
    number-Fits,
    (
      (λ s e. cc),
      (
        omega arith,
        omega arith,
        ((λ s e. cc), omega arith),
        ((λ s e. cc), (omega arith, omega arith)),
      ),
    ),
  ),
)

conn_answers :
    (f : Field) (at size w : ℕ)
    → field_size f ≤ size
    → (s : Bytes) × ((answer_field conn f at size w).outcome ≡ wrote s)
      × (length s ≤ field_size f)
      × Says conn f s
      × IsShort (answer_field conn f at size w).value
conn_answers = answer_field_fits conn (omega arith) (omega arith)

eval_total_example :
    (s : Bytes) × ((eval (answer_field conn) counter server sample 0 40 5).outcome ≡ wrote s)
    × (length s ≤ 34)
    × Denotes server (Says conn) sample s
    × Fits server (Says conn) (eval (answer_field conn) counter server sample 0 40 5).part
    × (estimate (eval (answer_field conn) counter server sample 0 40 5).part ≡ 34)
    × ((t : Bytes)
        → Denotes server (Says conn) (eval (answer_field conn) counter server sample 0 40 5).part t
          ↔ Denotes server (Says conn) sample t)
eval_total_example =
    eval_total server (Says conn) (answer_field conn) counter counter_below conn_answers sample 0 40
      5 sample-Fits (omega arith)

eval-again_example :
    eval
      (answer_field conn)
      counter
      server
      (eval (answer_field conn) counter server number 0 16 5).part
      3
      9
      8
    ≡ again (eval (answer_field conn) counter server number 0 16 5).part (b'2' ∷ []) 8
eval-again_example =
    eval-again (answer_field conn) counter server number 0 16 3 9 5 8 b'2' [] kept_number
      eval-number

split_total_example : (s : EswResult) × (split_by_websocket_frame sample ≡ some s) × Splits sample s
split_total_example = split_total sample

sample-IsFresh : IsFresh sample
unfolding IsFresh IsFreshNode
sample-IsFresh = (refl, ((refl, (refl, tt)), (refl, ((refl, tt), (refl, tt)))))

abbrev no_junk : ℕ → ℕ → ℕ
no_junk rest k = 0

unescape_expression-Fits_example :
    Fits server (Says conn) (unescape_expression no_junk sample)
    × (estimate (unescape_expression no_junk sample) ≤ 34)
unescape_expression-Fits_example =
    unescape_expression-Fits server (Says conn) no_junk sample sample-IsFresh sample-Fits

digit_sum_total_example : (digit_sum 12 ≡ total_digits 12) × (digit_sum 12 < 2 ^ 63)
digit_sum_total_example = digit_sum_total 12 (omega arith) (omega arith)

answer_field_fits_example :
    (s : Bytes) × ((answer_field {W = ℕ} conn uid 3 20 5).outcome ≡ wrote s)
    × (length s ≤ 16)
    × Says conn uid s
    × IsShort (answer_field {W = ℕ} conn uid 3 20 5).value
answer_field_fits_example =
    answer_field_fits conn (omega arith) (omega arith) uid 3 20 5 (omega arith)
