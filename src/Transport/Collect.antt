-- ===== src/Transport/Collect.antt =====
-- `message_collection_ensure_space`, `message_collection_add_expr`, `message_collection_add`,
-- `message_collection_replicate` and `message_collection_has` of src/tcpkali_transport.c. Memory is
-- not refused.
pub mod Space
pub mod Order
pub mod Rounds
use tcpkali.Base.{
  ℕ, zero, suc, ◌+◌, ◌*◌, Bool, true, false, ◌||◌, Bytes, List, [], ◌∷◌, ◌++◌, map, Option, none,
  some, length, ltb, ◌==◌, if◌then◌else◌,
}
use tcpkali.Data.Unescape.{unescape_data}
use tcpkali.Expr.{Scope, rank, Expr, expr, Node, text, node_of, scope}
use tcpkali.Expr.Build.{
  EswResult, split_by_websocket_frame, has_subexpression, replicate_expression, unescape_expression,
}
use tcpkali.Expr.Build.Split.{leaves}
use tcpkali.Transport.{
  Purpose, http_header, first_msg, message, Flags, Snippet, State, embryonic, finalized_plain_tcp,
  finalized_websocket, Collection,
}

-- The new `snippets_size`. A round makes it larger, so that `need` and the count are rounds enough.
unfoldable pub grow_space : ℕ → ℕ → ℕ → ℕ
grow_space zero wanted size = size
grow_space (suc fuel) wanted size =
    let rest = grow_space fuel wanted (2 * (if size == 0 then 8 else size)) in
    if ltb size wanted then rest else size

abbrev pub count : Collection → ℕ
count mc = length mc.snippets

unfoldable pub ensure_space : Collection → ℕ → Collection
unfolding grow_space
ensure_space mc need = record {
  snippets = mc.snippets;
  snippets_size = grow_space (count mc + need) (count mc + need) mc.snippets_size;
  most_dynamic_expression = mc.most_dynamic_expression;
  state = mc.state;
}

abbrev pub is_header : Purpose → Bool
is_header http_header = true
is_header p = false

abbrev not_header : Purpose → Bool
not_header p = if is_header p then false else true

abbrev pub prefix_flags : Purpose → Flags
prefix_flags kind = record {
  purpose = kind;
  framing_requested = not_header kind;
  framing_asserted = false;
  expression_found = true;
}

abbrev pub frame_flags : Purpose → Flags
frame_flags kind = record {
  purpose = kind;
  framing_requested = false;
  framing_asserted = true;
  expression_found = true;
}

-- The next snippet is taken into use for an expression.
abbrev pub append_expr : Collection → Flags → Option Expr → Collection
append_expr mc flags none = mc
append_expr mc flags (some e) = record {
  snippets =
      mc.snippets
      ++ ((record { bytes = []; expr = some e; flags = flags; sort_index = count mc }) ∷ []);
  snippets_size = mc.snippets_size;
  most_dynamic_expression =
      if ltb (rank mc.most_dynamic_expression) (rank (scope e))
      then scope e
      else mc.most_dynamic_expression;
  state = mc.state;
}

-- One round of the loop: the first two parts of the split expression.
abbrev pub add_parts : Collection → Purpose → EswResult → Collection
add_parts mc kind s =
    append_expr (append_expr (ensure_space mc 2) (prefix_flags kind) s.esw_prefix)
      (frame_flags kind) s.esw_websocket_frame

abbrev pub add_rest :
    (Collection → Expr → Option Collection) → Collection → Option Expr → Option Collection
add_rest next mc none = some mc
add_rest next mc (some e) = next mc e

abbrev pub add_split :
    (Collection → Expr → Option Collection)
    → Collection
    → Purpose
    → Option EswResult
    → Option Collection
add_split next mc kind none = none
add_split next mc kind (some s) = add_rest next (add_parts mc kind s) s.esw_remainder

-- `none` where an assertion of the split fails or the rounds do not suffice.
unfoldable pub add_expr : ℕ → Purpose → Collection → Expr → Option Collection
unfolding ensure_space
add_expr zero kind mc e = none
add_expr (suc fuel) kind mc e = add_split (add_expr fuel kind) mc kind (split_by_websocket_frame e)

-- A part of an expression that is no concatenation takes one round at most.
abbrev pub rounds : Expr → ℕ
rounds e = length (leaves e)

abbrev pub embryonic_state : State → Bool
embryonic_state embryonic = true
embryonic_state s = false

abbrev pub plain_flags : Purpose → Flags
plain_flags kind = record {
  purpose = kind;
  framing_requested = not_header kind;
  framing_asserted = false;
  expression_found = false;
}

abbrev pub append_plain : Collection → Purpose → Bytes → Collection
append_plain mc kind s = record {
  snippets =
      mc.snippets
      ++ ((record { bytes = s; expr = none; flags = plain_flags kind; sort_index = count mc })
          ∷ []);
  snippets_size = mc.snippets_size;
  most_dynamic_expression = mc.most_dynamic_expression;
  state = mc.state;
}

-- A constant expression becomes the data of the snippet.
abbrev pub add_parsed : Collection → Purpose → Expr → Option Collection
add_parsed mc kind (expr m (text s)) = some (append_plain mc kind s)
add_parsed mc kind e = add_expr (rounds e) kind mc e

-- `parse` is `parse_expression` with the generated parser. `none` where it fails and the program
-- ends, or where an assertion fails.
module _ (junk : ℕ → ℕ → ℕ) (parse : Bytes → Option Expr) where
  abbrev add_expression : Collection → Purpose → Bool → Option Expr → Option Collection
  add_expression mc kind unescape none = none
  add_expression mc kind unescape (some e) =
      add_parsed mc kind (if unescape then unescape_expression junk e else e)

  unfoldable pub add : Collection → Purpose → Bytes → Bool → Bool → Option Collection
  unfolding add_expr
  add mc kind s unescape parse_expressions =
      if embryonic_state mc.state
      then (if parse_expressions
          then add_expression (ensure_space mc 1) kind unescape (parse s)
          else some (
              append_plain (ensure_space mc 1) kind (if unescape then unescape_data junk s else s)))
      else none

abbrev replicated : Option Expr → Option Expr
replicated none = none
replicated (some e) = some (replicate_expression e)

abbrev replicate_snippet : Snippet → Snippet
replicate_snippet s = record {
  bytes = s.bytes;
  expr = replicated s.expr;
  flags = s.flags;
  sort_index = s.sort_index;
}

-- The collection that `mc_to` becomes.
unfoldable pub replicate : Collection → Collection
replicate mc = record {
  snippets = map replicate_snippet mc.snippets;
  snippets_size = mc.snippets_size;
  most_dynamic_expression = mc.most_dynamic_expression;
  state = mc.state;
}

abbrev contains : Option Expr → ℕ → Bool
contains none t = false
contains (some e) t = has_subexpression e t

unfoldable pub has_in : List Snippet → ℕ → Bool
has_in [] t = false
has_in (s ∷ ss) t = contains s.expr t || has_in ss t

unfoldable pub has : Collection → ℕ → Bool
unfolding has_in
has mc t = has_in mc.snippets t
