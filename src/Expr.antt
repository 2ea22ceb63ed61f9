-- ===== src/Expr.antt =====
-- src/tcpkali_expr.h and src/tcpkali_expr.c: message expressions, the parts in \{...} of a message.
-- `tk_expr_t` is a tree here; Build has the functions that put it together and take it apart, Eval
-- the evaluation.
pub mod Decimal
pub mod Build
pub mod Eval
mod Tests
use tcpkali.Base.{ℕ, Bytes, Option, none, some}
use tcpkali.WebSocket.Frame.{Opcode}
use tcpkali.Regex.{Regex}

-- `long`.
pub data ℤ : Type 0 where
  pos negsuc : ℕ → ℤ

-- `enum tk_expr_dynamic_scope`, in its order.
pub data Scope : Type 0 where
  global_fixed per_connection per_message : Scope

abbrev pub rank : Scope → ℕ
rank global_fixed = 0
rank per_connection = 1
rank per_message = 2

-- The members that every kind has; `res` is `res_buf` with `res_size`, and `none` where it is NULL.
pub record Meta : Type 0 where
  pub estimate_size : ℕ
  pub dynamic_scope : Scope
  pub res : Option Bytes

pub record WsFrame : Type 0 where
  pub bytes : Bytes
  pub opcode : Opcode
  pub rsvs : ℕ
  pub fin : ℕ

mutual
  pub data Expr : Type 0 where
    expr : Meta → Node → Expr

  -- `enum tk_expr_type` with the member of the union that it tells.
  pub data Node : Type 0 where
    text : Bytes → Node
    raw : Expr → Node
    ws_frame : WsFrame → Node
    concat : Expr → Expr → Node
    modulo : Expr → ℤ → Node
    connection_ptr connection_uid : Node
    regex : Regex → Node
    message_marker : Node

abbrev pub meta : Expr → Meta
meta (expr m n) = m

abbrev pub node_of : Expr → Node
node_of (expr m n) = n

abbrev pub estimate : Expr → ℕ
estimate e = (meta e).estimate_size

abbrev pub scope : Expr → Scope
scope e = (meta e).dynamic_scope
