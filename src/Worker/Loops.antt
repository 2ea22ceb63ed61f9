-- ===== src/Worker/Loops.antt =====
-- `struct engine` of src/tcpkali_engine.c over all its workers: `engine_get_connection_stats`,
-- `engine_initiate_new_connections`, the end of the workers in `engine_terminate`, and
-- `estimate_segments_per_op`. The pipe to a worker holds commands; writes to it do not fail but for
-- EINTR. Reports are left out.
pub mod Stats
pub mod Balance
mod Tests
use tcpkali.Base.{
  ℕ, zero, suc, ◌+◌, ◌-◌, ◌/◌, ◌%◌, ◌^◌, Bool, true, false, List, [], ◌∷◌, ◌++◌, Option, none, some,
  ltb, ◌==◌, if◌then◌else◌,
}
use tcpkali.Worker.Traffic.{TrafficStats, add_traffic_numbers}
use tcpkali.Worker.Connections.{Worker, Outcome, proceeds, exits, faults, ◌>>=◌}
use tcpkali.Worker.Close.{worker_exit}

pub record ConnectionStats : Type 0 where
  pub connecting : ℕ
  pub incoming : ℕ
  pub outgoing : ℕ
  pub counter : ℕ

abbrev pub add_worker : Worker → ConnectionStats → ConnectionStats
add_worker w s = record {
  connecting = (s.connecting + w.outgoing_connecting) % 2 ^ 64;
  incoming = (s.incoming + w.incoming_established) % 2 ^ 64;
  outgoing = (s.outgoing + w.outgoing_established) % 2 ^ 64;
  counter = (s.counter + w.connections_counter) % 2 ^ 64;
}

unfoldable pub stats_from : ConnectionStats → List Worker → ConnectionStats
stats_from s [] = s
stats_from s (w ∷ ws) = stats_from (add_worker w s) ws

abbrev pub engine_get_connection_stats : List Worker → ConnectionStats
engine_get_connection_stats ws =
    stats_from (record { connecting = 0; incoming = 0; outgoing = 0; counter = 0 }) ws

-- Of each worker, how often the command c was written to its pipe; and `next_worker_order`.
pub record Control : Type 0 where
  pub next_worker_order : ℕ
  pub initiated : List ℕ

abbrev pub write_c : ℕ → List ℕ → List ℕ
write_c n [] = []
write_c zero (c ∷ cs) = suc c ∷ cs
write_c (suc n) (c ∷ cs) = c ∷ write_c n cs

-- The counter is an int. `interrupted n` is whether the write number n fails with EINTR; the number
-- of writes that were made is the result.
unfoldable pub initiate_from : (ℕ → Bool) → ℕ → ℕ → ℕ → Control → Outcome (ℕ × Control)
initiate_from interrupted n_workers zero n c = proceeds (n, c)
initiate_from interrupted n_workers (suc left) n c =
    let next = c.next_worker_order + 1 in
    let chosen = write_c (c.next_worker_order % n_workers) c.initiated in
    let more =
      initiate_from interrupted n_workers left (n + 1)
        (record { next_worker_order = next; initiated = chosen }) in
    if ltb next (2 ^ 31)
    then (if interrupted n
        then proceeds (n, record { next_worker_order = next; initiated = c.initiated })
        else more)
    else faults

unfoldable pub engine_initiate_new_connections :
    (ℕ → Bool) → ℕ → ℕ → Control → Outcome (ℕ × Control)
unfolding initiate_from
engine_initiate_new_connections interrupted n_workers n_req c =
    initiate_from interrupted n_workers n_req 0 c

-- The workers end one after another, and their numbers are added.
unfoldable pub terminate_from : TrafficStats → List Worker → Outcome TrafficStats
terminate_from total [] = proceeds total
terminate_from total (w ∷ ws) = do
  gone ← worker_exit w
  terminate_from (add_traffic_numbers gone.worker_traffic_stats total) ws

abbrev pub estimate_segments_per_op : ℕ → ℕ → ℕ
estimate_segments_per_op ops bytes =
    if ops == 0 then 0 else ((bytes / ops + 1459) % 2 ^ 64 / 1460) % 2 ^ 32
