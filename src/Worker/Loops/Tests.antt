-- ===== src/Worker/Loops/Tests.antt =====
-- The engine over two workers.
use tcpkali.Base.{◌+◌, ◌≡◌, refl, false, [], ◌∷◌, arith}
use tcpkali.Worker.Connections.{proceeds}
use tcpkali.Worker.Tests.{busy, busy-IsCounted}
use tcpkali.Worker.Loops.{Control, engine_initiate_new_connections, engine_get_connection_stats}
use tcpkali.Worker.Loops.Balance.{IsFair, engine_initiate_new_connections-IsFair}
use tcpkali.Worker.Loops.Stats.{Shown, engine_get_connection_stats-all_conns}

-- The second of three workers is the next.
abbrev four_sent : Control
four_sent = record { next_worker_order = 4; initiated = 2 ∷ 1 ∷ 1 ∷ [] }

engine_initiate_new_connections-IsFair_example :
    (d : Control) × (engine_initiate_new_connections (λ i. false) 3 5 four_sent ≡ proceeds (5, d))
    × (d.next_worker_order ≡ 4 + 5)
    × IsFair 3 d
engine_initiate_new_connections-IsFair_example =
    engine_initiate_new_connections-IsFair (λ i. false) 3 5 four_sent
      (1, 1, refl, omega arith, refl) (omega arith) (λ i h. refl)

engine_get_connection_stats-all_conns_example :
    Shown (engine_get_connection_stats (busy ∷ busy ∷ [])) (busy ∷ busy ∷ [])
engine_get_connection_stats-all_conns_example =
    engine_get_connection_stats-all_conns (busy ∷ busy ∷ []) (busy-IsCounted, (busy-IsCounted, tt))
      (omega arith)
