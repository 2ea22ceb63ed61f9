-- ===== src/Worker/Latency/Tests.antt =====
-- Exchanges whose marker is the byte 7, of which the first is skipped.
use tcpkali.Base.{ℕ, ◌+◌, Bool, true, false, Bytes, List, [], ◌∷◌, ◌==◌, if◌then◌else◌, arith}
use tcpkali.Worker.Latency.{Exchange, sends, arrives, exchanges}
use tcpkali.Worker.Latency.Runs.{Verdict, nothing_seen, new_latency, exchanges_total}

abbrev junk : ℕ → ℕ
junk n = 99

-- The context is how many bytes were looked at.
abbrev first_seven : ℕ → Bytes → ℕ × (Bool × ℕ)
first_seven seen [] = (0, (false, seen))
first_seven seen (c ∷ s) =
    let (n, r) = first_seven (seen + 1) s in if c == 7 then (1, (true, seen + 1)) else (n + 1, r)

abbrev same : ℕ → ℕ
same n = n

-- Two messages of four bytes, in three writes, then three markers.
abbrev echo : List Exchange
echo =
    sends 10 3
    ∷ sends 20 4
    ∷ arrives 25 (7 ∷ 1 ∷ 7 ∷ [])
    ∷ sends 30 1
    ∷ arrives 40 (2 ∷ 7 ∷ [])
    ∷ []

exchanges_total_example :
    Verdict junk first_seven same 4 1
      (nothing_seen junk first_seven same 0)
      echo
      (exchanges junk 4 first_seven same echo (new_latency junk first_seven same 4 0 1))
exchanges_total_example =
    exchanges_total junk first_seven same 4 1 echo 0 (omega arith) (omega arith)
      (omega arith, (omega arith, (omega arith, (omega arith, (omega arith, tt)))))
