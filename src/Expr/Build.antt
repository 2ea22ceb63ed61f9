-- ===== src/Expr/Build.antt =====
-- The functions of src/tcpkali_expr.c that put expressions together and take them apart. An
-- expression that may be NULL is an `Option`.
pub mod Split
pub mod Average
pub mod Unescape
pub mod Contains
use tcpkali.Base.{
  ℕ, ◌+◌, ◌-◌, ◌^◌, ◌%◌, Bool, true, false, ◌||◌, Bytes, Option, none, some, ltb, ◌==◌,
  if◌then◌else◌, length,
}
use tcpkali.Data.Unescape.{unescape_data}
use tcpkali.Regex.Build.{add_size}
use tcpkali.Expr.{
  ℤ, Scope, global_fixed, rank, Meta, WsFrame, Expr, expr, Node, text, raw, ws_frame, concat,
  modulo, connection_ptr, connection_uid, regex, message_marker, meta, estimate, scope,
}

-- The numbers of `enum tk_expr_type`.
abbrev pub type_number : Node → ℕ
type_number (text s) = 0
type_number (raw e) = 1
type_number (ws_frame f) = 2
type_number (concat a b) = 3
type_number (modulo e k) = 4
type_number connection_ptr = 5
type_number connection_uid = 6
type_number (regex re) = 7
type_number message_marker = 8

abbrev pub max_scope : Scope → Scope → Scope
max_scope a b = if ltb (rank b) (rank a) then a else b

abbrev pub concat_both : Expr → Expr → Expr
concat_both a b =
    expr
      (record {
        estimate_size = add_size (estimate a) (estimate b);
        dynamic_scope = max_scope (scope a) (scope b);
        res = none;
      })
      (concat a b)

unfoldable pub concat_expressions : Option Expr → Option Expr → Option Expr
concat_expressions (some a) (some b) = some (concat_both a b)
concat_expressions (some a) none = some a
concat_expressions none b = b

-- `struct esw_result`.
pub record EswResult : Type 0 where
  pub esw_prefix : Option Expr
  pub esw_websocket_frame : Option Expr
  pub esw_remainder : Option Expr

abbrev pub only_prefix : Expr → EswResult
only_prefix e = record { esw_prefix = some e; esw_websocket_frame = none; esw_remainder = none }

abbrev pub only_frame : Expr → EswResult
only_frame e = record { esw_prefix = none; esw_websocket_frame = some e; esw_remainder = none }

-- The first part has no frame; `none` is a failed assertion.
abbrev pub frame_second : EswResult → Expr → Option Expr → Option Expr → Option EswResult
frame_second s f (some p) none = some (record {
  esw_prefix = concat_expressions (some p) s.esw_prefix;
  esw_websocket_frame = some f;
  esw_remainder = s.esw_remainder;
})
frame_second s f prefix remainder = none

-- The case of EXPR_CONCAT behind the calls, by the frames of the two parts.
abbrev pub split_concat :
    Expr → EswResult → EswResult → Option Expr → Option Expr → Option EswResult
split_concat e s s' none none = some (only_prefix e)
split_concat e s s' (some f) second = some (record {
  esw_prefix = s.esw_prefix;
  esw_websocket_frame = some f;
  esw_remainder =
      concat_expressions (concat_expressions s.esw_remainder s'.esw_prefix)
        (concat_expressions second s'.esw_remainder);
})
split_concat e s s' none (some f) = frame_second s' f s.esw_prefix s.esw_remainder

abbrev pub split_both : Expr → Option EswResult → Option EswResult → Option EswResult
split_both e (some s) (some s') = split_concat e s s' s.esw_websocket_frame s'.esw_websocket_frame
split_both e s s' = none

unfoldable pub split_by_websocket_frame : Expr → Option EswResult
split_by_websocket_frame (expr m (ws_frame f)) = some (only_frame (expr m (ws_frame f)))
split_by_websocket_frame (expr m (raw e)) = some (only_frame (expr m (raw e)))
split_by_websocket_frame (expr m (concat a b)) =
    split_both (expr m (concat a b)) (split_by_websocket_frame a) (split_by_websocket_frame b)
split_by_websocket_frame e = some (only_prefix e)

unfoldable pub has_subexpression : Expr → ℕ → Bool
has_subexpression (expr m (raw e)) t = 1 == t || has_subexpression e t
has_subexpression (expr m (concat a b)) t =
    3 == t || (has_subexpression a t || has_subexpression b t)
has_subexpression (expr m (modulo e k)) t = 4 == t || has_subexpression e t
has_subexpression (expr m n) t = type_number n == t

abbrev without_res : Meta → Meta
without_res m = record {
  estimate_size = m.estimate_size;
  dynamic_scope = m.dynamic_scope;
  res = none;
}

unfoldable pub replicate_expression : Expr → Expr
replicate_expression (expr m (raw e)) = expr (without_res m) (raw (replicate_expression e))
replicate_expression (expr m (concat a b)) =
    expr (without_res m) (concat (replicate_expression a) (replicate_expression b))
replicate_expression (expr m (modulo e k)) =
    expr (without_res m) (modulo (replicate_expression e) k)
replicate_expression (expr m n) = expr (without_res m) n

abbrev resized : Meta → ℕ → Meta
resized m size = record { estimate_size = size; dynamic_scope = m.dynamic_scope; res = m.res }

-- `overhead` is computed in `size_t`.
abbrev pub with_overhead : ℕ → ℕ → ℕ → ℕ
with_overhead estimate_size size size' = add_size size' ((estimate_size + 2 ^ 64 - size) % 2 ^ 64)

module _ (junk : ℕ → ℕ → ℕ) where
  unfoldable pub unescape_expression : Expr → Expr
  unescape_expression (expr m (text s)) =
      let s' = unescape_data junk s in expr (resized m (length s')) (text s')
  unescape_expression (expr m (raw e)) = expr m (raw (unescape_expression e))
  unescape_expression (expr m (concat a b)) =
      let a' = unescape_expression a in
      let b' = unescape_expression b in
      expr (resized m (add_size (estimate a') (estimate b'))) (concat a' b')
  unescape_expression (expr m (ws_frame f)) =
      let s = unescape_data junk f.bytes in
      expr (resized m (with_overhead m.estimate_size (length f.bytes) (length s)))
        (ws_frame (record { bytes = s; opcode = f.opcode; rsvs = f.rsvs; fin = f.fin }))
  unescape_expression (expr m n) = expr m n
