-- ===== src/Transport/Finalize.antt =====
-- `snippet_compare_cb` and `message_collection_finalize` of src/tcpkali_transport.c. `qsort` is an
-- insertion sort with the same comparison; no two snippets compare as equal, so that any sort gives
-- the same.
pub mod Laws
use tcpkali.Base.{
  ℕ, ◌+◌, ◌<◌, Bool, true, false, Bytes, List, [], ◌∷◌, ◌++◌, Option, none, some, ltb,
  if◌then◌else◌,
}
use tcpkali.WebSocket.Detect.{codes}
use tcpkali.Expr.{Expr}
use tcpkali.Transport.{
  Purpose, http_header, purpose_value, Flags, Snippet, State, embryonic, finalized_plain_tcp,
  finalized_websocket, Collection,
}
use tcpkali.Transport.Collect.{embryonic_state, add}

pub data Order : Type 0 where
  less equal greater : Order

abbrev pub compare_by : ℕ → ℕ → Order → Order
compare_by a b otherwise = if ltb a b then less else if ltb b a then greater else otherwise

abbrev pub snippet_compare : Snippet → Snippet → Order
snippet_compare a b =
    compare_by (purpose_value a.flags.purpose) (purpose_value b.flags.purpose)
      (compare_by a.sort_index b.sort_index equal)

abbrev pub is_less : Order → Bool
is_less less = true
is_less o = false

unfoldable pub insert : Snippet → List Snippet → List Snippet
insert s [] = s ∷ []
insert s (t ∷ ts) =
    let rest = insert s ts in if is_less (snippet_compare s t) then s ∷ t ∷ ts else t ∷ rest

unfoldable pub sort : List Snippet → List Snippet
unfolding insert
sort [] = []
sort (s ∷ ss) = insert s (sort ss)

abbrev pub crlf : Bytes
crlf = codes "\r\n"

-- `ws_http_headers_fmt` with its three arguments; the buffer is as long as the format, its zero and
-- the arguments, of which the three "%s" are not needed, so that nothing is cut.
abbrev pub http_headers : Bytes → Bytes → Bytes → Bytes
http_headers path hostport headers =
    codes "GET /"
    ++ (path
        ++ (codes " HTTP/1.1"
            ++ (crlf
                ++ (codes "Host: "
                    ++ (hostport
                        ++ (crlf
                            ++ (codes "Upgrade: websocket"
                                ++ (crlf
                                    ++ (codes "Connection: Upgrade"
                                        ++ (crlf
                                            ++ (codes "Sec-WebSocket-Key: x3JJHMbDL1EzLkh9GBhXDw=="
                                                ++ (crlf
                                                    ++ (codes "Sec-WebSocket-Version: 13"
                                                        ++ (crlf ++ (headers ++ crlf)))))))))))))))

abbrev pub or_empty : Option Bytes → Bytes
or_empty none = []
or_empty (some s) = s

abbrev sorted_as : State → Option Collection → Option Collection
sorted_as state none = none
sorted_as state (some mc) = some (record {
  snippets = sort mc.snippets;
  snippets_size = mc.snippets_size;
  most_dynamic_expression = mc.most_dynamic_expression;
  state = state;
})

module _ (junk : ℕ → ℕ → ℕ) (parse : Bytes → Option Expr) where
  unfoldable pub finalize :
      Collection → Bool → Option Bytes → Option Bytes → Option Bytes → Option Collection
  unfolding sort
  finalize mc as_websocket hostport path headers =
      if embryonic_state mc.state
      then (if as_websocket
          then sorted_as finalized_websocket (
              add junk parse mc http_header
                (http_headers (or_empty path) (or_empty hostport) (or_empty headers)) false true)
          else sorted_as finalized_plain_tcp (some mc))
      else none
