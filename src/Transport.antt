-- ===== src/Transport.antt =====
-- src/tcpkali_transport.h and src/tcpkali_transport.c: the collection of messages from the command
-- line, and the buffer that is sent. The data types are here; Collect has the functions that fill a
-- collection, Size its estimates, Payload the replication of a small payload.
pub mod Collect
pub mod Finalize
pub mod Size
pub mod Payload
pub mod Convert
mod Tests
use tcpkali.Base.{ℕ, ◌+◌, Bool, true, false, Bytes, List, Option, if◌then◌else◌}
use tcpkali.Expr.{Expr, Scope}

-- The MSK_PURPOSE_ part of the flags.
pub data Purpose : Type 0 where
  http_header first_msg message : Purpose

abbrev pub purpose_value : Purpose → ℕ
purpose_value http_header = 1
purpose_value first_msg = 2
purpose_value message = 4

-- The bits of `enum mc_snippet_kind`.
pub record Flags : Type 0 where
  pub purpose : Purpose
  pub framing_requested : Bool
  pub framing_asserted : Bool
  pub expression_found : Bool

abbrev pub flags_value : Flags → ℕ
flags_value f =
    purpose_value f.purpose
    + (if f.framing_requested then 0x10 else 0)
    + (if f.framing_asserted then 0x20 else 0)
    + (if f.expression_found then 0x40 else 0)

-- `data` with `size` is `bytes`; it is empty where `expr` is used.
pub record Snippet : Type 0 where
  pub bytes : Bytes
  pub expr : Option Expr
  pub flags : Flags
  pub sort_index : ℕ

pub data State : Type 0 where
  embryonic finalized_plain_tcp finalized_websocket : State

-- The array has room for `snippets_size` snippets; `snippets_count` is the length of the list.
pub record Collection : Type 0 where
  pub snippets : List Snippet
  pub snippets_size : ℕ
  pub most_dynamic_expression : Scope
  pub state : State
