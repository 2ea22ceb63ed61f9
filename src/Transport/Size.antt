-- ===== src/Transport/Size.antt =====
-- `ws_header_size_estimate` and `message_collection_estimate_size` of src/tcpkali_transport.c.
use tcpkali.Base.{
  ℕ, Bool, true, false, List, [], ◌∷◌, Bytes, Option, none, some, length, bit_and, ltb, ◌==◌,
  if◌then◌else◌,
}
use tcpkali.WebSocket.Frame.{Side, client, server, text_frame, frame_header}
use tcpkali.Regex.{min_size}
use tcpkali.Regex.Build.{add_size}
use tcpkali.Expr.{Expr, expr, regex, estimate}
use tcpkali.Expr.Build.Average.{average_size}
use tcpkali.Transport.{flags_value, Snippet, Collection}
use tcpkali.Transport.Collect.{embryonic_state}

pub data Estimate : Type 0 where
  minimum_size maximum_size average : Estimate

-- The size of the header of a text frame.
abbrev pub header_size : Side → ℕ → ℕ
header_size side n = length (frame_header side text_frame 0 1 n)

unfoldable pub ws_header_size_estimate : Estimate → Side → ℕ → ℕ
ws_header_size_estimate maximum_size side n =
    if ltb (header_size server n) (header_size client n)
    then header_size client n
    else header_size server n
ws_header_size_estimate average side n = header_size side n
ws_header_size_estimate minimum_size side n =
    if ltb (header_size client n) (header_size server n)
    then header_size client n
    else header_size server n

module _ (quotient : ℕ → ℕ → ℕ) where
  abbrev pub expr_size : Estimate → Expr → ℕ
  expr_size average e = average_size quotient e
  expr_size minimum_size (expr m (regex re)) = min_size re
  expr_size mce e = estimate e

  -- `none` where a NULL pointer is followed.
  abbrev pub data_size : Estimate → Bool → Option Expr → Bytes → Option ℕ
  data_size mce false e s = some (length s)
  data_size mce true none s = none
  data_size mce true (some e) s = some (expr_size mce e)

  abbrev pub with_header : Estimate → Side → Bool → ℕ → ℕ
  with_header mce side ws_enable n =
      add_size n (if ws_enable then ws_header_size_estimate mce side n else 0)

  abbrev pub plus : ℕ → Estimate → Side → Bool → Option ℕ → Option ℕ
  plus total mce side ws_enable none = none
  plus total mce side ws_enable (some n) = some (add_size total (with_header mce side ws_enable n))

  abbrev pub and_then : Option ℕ → (ℕ → Option ℕ) → Option ℕ
  and_then none next = none
  and_then (some n) next = next n

  -- The loop, from a sum on.
  unfoldable pub sizes_from : ℕ → ℕ → Estimate → Side → Bool → List Snippet → ℕ → Option ℕ
  unfolding ws_header_size_estimate average_size
  sizes_from kind_and kind_equal mce side ws_enable [] total = some total
  sizes_from kind_and kind_equal mce side ws_enable (s ∷ ss) total =
      and_then
        (if bit_and (flags_value s.flags) kind_and == kind_equal
          then plus total mce side ws_enable (data_size mce s.flags.expression_found s.expr s.bytes)
          else some total)
        (sizes_from kind_and kind_equal mce side ws_enable ss)

  unfoldable pub estimate_size : Collection → ℕ → ℕ → Estimate → Side → Bool → Option ℕ
  unfolding sizes_from
  estimate_size mc kind_and kind_equal mce side ws_enable =
      if embryonic_state mc.state
      then none
      else sizes_from kind_and kind_equal mce side ws_enable mc.snippets 0
