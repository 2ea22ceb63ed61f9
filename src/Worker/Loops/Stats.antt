-- ===== src/Worker/Loops/Stats.antt =====
-- What the engine reports of all workers.
use tcpkali.Base.{
  ℕ, ◌+◌, ◌%◌, ◌^◌, ◌≤◌, ◌<◌, ◌≡◌, refl, ◌∙◌, List, [], ◌∷◌, ◌++◌, All, length, length-append,
  arith,
}
use tcpkali.Worker.Traffic.{Number}
use tcpkali.Worker.Connections.{
  ConnType, conn_outgoing, conn_incoming, conn_acceptor, ConnState, connecting, connected,
  Connection, Worker,
}
use tcpkali.Worker.Totals.{total-append}
use tcpkali.Worker.Counters.{as_connecting, as_outgoing, as_incoming, number_of, IsCounted}
use tcpkali.Worker.Conserved.{settled_in}
use tcpkali.Worker.Loops.{ConnectionStats, add_worker, stats_from, engine_get_connection_stats}

-- The connections of all workers.
abbrev pub all_conns : List Worker → List Connection
all_conns [] = []
all_conns (w ∷ ws) = w.open_conns ++ all_conns ws

-- A counter of a worker counts connections, of which there are fewer than the counter can hold.
abbrev pub CountsSome : (ConnType → ConnState → ℕ) → (Worker → ℕ) → Worker → Type 0
CountsSome f counter w =
    (counter w ≡ number_of f w.open_conns % 2 ^ 32) × (number_of f w.open_conns < 2 ^ 32)

abbrev sum_from : (Worker → ℕ) → ℕ → List Worker → ℕ
sum_from counter n [] = n
sum_from counter n (w ∷ ws) = sum_from counter ((n + counter w) % 2 ^ 64) ws

sum_counts :
    (f : ConnType → ConnState → ℕ) (counter : Worker → ℕ) (n : ℕ) (ws : List Worker)
    → All (CountsSome f counter) ws
    → n + number_of f (all_conns ws) < 2 ^ 64
    → sum_from counter n ws ≡ n + number_of f (all_conns ws)
sum_counts f counter n [] h small = omega arith
sum_counts f counter n (w ∷ ws) (h, hs) small =
    let split = total-append (λ c. f c.conn_type c.conn_state) w.open_conns (all_conns ws) in
    sum_counts f counter ((n + counter w) % 2 ^ 64) ws hs (omega (arith, split, h.0, h.1))
    ∙ omega (arith, split, h.0, h.1)

number_of_le :
    (f : ConnType → ConnState → ℕ)
    → ((t : ConnType) (s : ConnState) → f t s ≤ 1)
    → (xs : List Connection) → number_of f xs ≤ length xs
number_of_le f one [] = omega arith
number_of_le f one (x ∷ xs) = omega (arith, one x.conn_type x.conn_state, number_of_le f one xs)

-- The numbers that a worker gives as they are, whatever stands in the counter of all it opened.
abbrev pub Shown : ConnectionStats → List Worker → Type 0
Shown s ws =
    (s.connecting ≡ number_of as_connecting (all_conns ws))
    × (s.outgoing ≡ number_of as_outgoing (all_conns ws))
    × (s.incoming ≡ number_of as_incoming (all_conns ws))

stats_from-sums :
    (s : ConnectionStats) (ws : List Worker)
    → ((stats_from s ws).connecting ≡ sum_from (λ w. w.outgoing_connecting) s.connecting ws)
      × ((stats_from s ws).outgoing ≡ sum_from (λ w. w.outgoing_established) s.outgoing ws)
      × ((stats_from s ws).incoming ≡ sum_from (λ w. w.incoming_established) s.incoming ws)
unfolding stats_from
stats_from-sums s [] = (refl, refl, refl)
stats_from-sums s (w ∷ ws) = stats_from-sums (add_worker w s) ws

counts_some :
    (f : ConnType → ConnState → ℕ) (counter : Worker → ℕ)
    → ((t : ConnType) (s : ConnState) → f t s ≤ 1)
    → ((w : Worker) → IsCounted w → counter w ≡ number_of f w.open_conns % 2 ^ 32)
    → (ws : List Worker) → All IsCounted ws
    → length (all_conns ws) < 2 ^ 32
    → All (CountsSome f counter) ws
counts_some f counter one holds [] h small = tt
counts_some f counter one holds (w ∷ ws) (h, hs) small =
    let split = length-append w.open_conns (all_conns ws) in
    (
      (holds w h, omega (arith, split, small, number_of_le f one w.open_conns)),
      counts_some f counter one holds ws hs (omega (arith, split, small)),
    )

shown :
    (f : ConnType → ConnState → ℕ) (counter : Worker → ℕ)
    → ((t : ConnType) (s : ConnState) → f t s ≤ 1)
    → ((w : Worker) → IsCounted w → counter w ≡ number_of f w.open_conns % 2 ^ 32)
    → (ws : List Worker) → All IsCounted ws
    → length (all_conns ws) < 2 ^ 32
    → sum_from counter 0 ws ≡ number_of f (all_conns ws)
shown f counter one holds ws h small =
    sum_counts f counter 0 ws (counts_some f counter one holds ws h small)
      (omega (arith, number_of_le f one (all_conns ws)))
    ∙ omega arith

as_connecting_le : (t : ConnType) (s : ConnState) → as_connecting t s ≤ 1
as_connecting_le conn_outgoing connecting = omega arith
as_connecting_le conn_outgoing connected = omega arith
as_connecting_le conn_incoming s = omega arith
as_connecting_le conn_acceptor s = omega arith

as_outgoing_le : (t : ConnType) (s : ConnState) → as_outgoing t s ≤ 1
as_outgoing_le conn_outgoing connecting = omega arith
as_outgoing_le conn_outgoing connected = omega arith
as_outgoing_le conn_incoming s = omega arith
as_outgoing_le conn_acceptor s = omega arith

as_incoming_le : (t : ConnType) (s : ConnState) → as_incoming t s ≤ 1
as_incoming_le conn_outgoing s = omega arith
as_incoming_le conn_incoming s = omega arith
as_incoming_le conn_acceptor s = omega arith

-- When every worker counts its connections, and there are fewer than 2 ^ 32 of them in all, the
-- engine reports the numbers of connections that are connecting, outgoing and incoming in all its
-- workers.
pub engine_get_connection_stats-all_conns :
    (ws : List Worker)
    → All IsCounted ws
    → length (all_conns ws) < 2 ^ 32
    → Shown (engine_get_connection_stats ws) ws
engine_get_connection_stats-all_conns ws h small =
    let nothing : ConnectionStats = record {
      connecting = 0;
      incoming = 0;
      outgoing = 0;
      counter = 0;
    } in
    let (a, b, c) = stats_from-sums nothing ws in
    (
      a
          ∙ shown as_connecting (λ w. w.outgoing_connecting) as_connecting_le
              (λ w i. i.are_connecting) ws h small,
      b
          ∙ shown as_outgoing (λ w. w.outgoing_established) as_outgoing_le (λ w i. i.are_outgoing)
              ws h small,
      c
          ∙ shown as_incoming (λ w. w.incoming_established) as_incoming_le (λ w i. i.are_incoming)
              ws h small,
    )

-- What was counted at the connections of all workers.
abbrev pub all_settled : Number → List Worker → ℕ
all_settled f [] = 0
all_settled f (w ∷ ws) = settled_in f w + all_settled f ws
