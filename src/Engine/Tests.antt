-- ===== src/Engine/Tests.antt =====
-- Runs of the engine's parts on small inputs.
use tcpkali.Base.{
  ℕ, suc, ◌+◌, ◌≡◌, refl, Bytes, some, length, drop, arith, Bool, true, false, ◌==◌, if◌then◌else◌,
}
use tcpkali.WebSocket.Detect.{codes}
use tcpkali.Engine.Fields.{marker_text}
use tcpkali.Engine.Marker.{
  hex_fixed, override_timestamp, slurping_digits, note, fed, record_incoming,
}
use tcpkali.Engine.Marker.Laws.{record-override_timestamp}
use tcpkali.Engine.Addresses.{RemoteStats}
use tcpkali.Engine.Channel.{tk_write, limit_channel_bandwidth}
use tcpkali.Engine.Channel.Laws.{Limited, limit_channel_bandwidth_total}

abbrev remote : ℕ → RemoteStats
remote i = record { connection_attempts = 20; connection_failures = if i == 1 then 3 else 20 }

-- A search that finds nothing.
abbrev none_found : ℕ → Bytes → ℕ × (Bool × ℕ)
none_found ctx s = (length s, (false, ctx))

abbrev same : ℕ → ℕ
same ctx = ctx

override_runs : override_timestamp marker_text 0xab1 ≡ some (codes "TCPKaliMsgTS-0000000000000ab1.")
unfolding override_timestamp hex_fixed
override_runs = refl

record-override_timestamp_example :
    (s : Bytes) × (override_timestamp marker_text 0xab1 ≡ some s)
    × (length s ≡ 30)
    × ((rounds ctx : ℕ)
        → record_incoming none_found same (16 + suc rounds) (slurping_digits 0 ctx) (drop 13 s)
          ≡ note none_found same 0xab1 (
              fed none_found same
                (record_incoming none_found same rounds)
                (codes ".")
                (none_found ctx (codes "."))))
record-override_timestamp_example =
    record-override_timestamp none_found same marker_text 0xab1 (omega arith) refl (omega arith)

limit_channel_bandwidth_total_example :
    Limited true 10 25 100 tk_write (limit_channel_bandwidth true 10 25 100 tk_write)
limit_channel_bandwidth_total_example = limit_channel_bandwidth_total true 10 25 100 tk_write
