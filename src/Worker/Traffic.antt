-- ===== src/Worker/Traffic.antt =====
-- The traffic numbers of src/tcpkali_traffic_stats.h, the counters of src/tcpkali_atomic.h and
-- `engine_traffic` of src/tcpkali_engine.c. Wide numbers have 64 bits and narrow ones 32.
use tcpkali.Base.{ℕ, ◌+◌, ◌-◌, ◌%◌, ◌^◌, List, [], ◌∷◌}

abbrev pub wide_add : ℕ → ℕ → ℕ
wide_add a b = (a + b) % 2 ^ 64

abbrev pub wide_subtract : ℕ → ℕ → ℕ
wide_subtract a b = (a + 2 ^ 64 - b % 2 ^ 64) % 2 ^ 64

abbrev pub atomic_increment : ℕ → ℕ
atomic_increment n = (n + 1) % 2 ^ 32

abbrev pub atomic_decrement : ℕ → ℕ
atomic_decrement n = (n + (2 ^ 32 - 1)) % 2 ^ 32

-- `non_atomic_traffic_stats` and `atomic_traffic_stats`.
pub record TrafficStats : Type 0 where
  pub bytes_sent : ℕ
  pub num_writes : ℕ
  pub bytes_rcvd : ℕ
  pub num_reads : ℕ
  pub msgs_sent : ℕ
  pub msgs_rcvd : ℕ

abbrev pub no_traffic : TrafficStats
no_traffic = record {
  bytes_sent = 0;
  num_writes = 0;
  bytes_rcvd = 0;
  num_reads = 0;
  msgs_sent = 0;
  msgs_rcvd = 0;
}

-- The source first, as in the code; the new destination is the result.
abbrev pub add_traffic_numbers : TrafficStats → TrafficStats → TrafficStats
add_traffic_numbers src dst = record {
  bytes_sent = wide_add dst.bytes_sent src.bytes_sent;
  num_writes = wide_add dst.num_writes src.num_writes;
  bytes_rcvd = wide_add dst.bytes_rcvd src.bytes_rcvd;
  num_reads = wide_add dst.num_reads src.num_reads;
  msgs_sent = wide_add dst.msgs_sent src.msgs_sent;
  msgs_rcvd = wide_add dst.msgs_rcvd src.msgs_rcvd;
}

abbrev pub subtract_traffic_stats : TrafficStats → TrafficStats → TrafficStats
subtract_traffic_stats a b = record {
  bytes_sent = wide_subtract a.bytes_sent b.bytes_sent;
  num_writes = wide_subtract a.num_writes b.num_writes;
  bytes_rcvd = wide_subtract a.bytes_rcvd b.bytes_rcvd;
  num_reads = wide_subtract a.num_reads b.num_reads;
  msgs_sent = wide_subtract a.msgs_sent b.msgs_sent;
  msgs_rcvd = wide_subtract a.msgs_rcvd b.msgs_rcvd;
}

-- The loop over the workers' numbers.
unfoldable pub engine_traffic_from : TrafficStats → List TrafficStats → TrafficStats
engine_traffic_from traffic [] = traffic
engine_traffic_from traffic (w ∷ ws) = engine_traffic_from (add_traffic_numbers w traffic) ws

abbrev pub engine_traffic : List TrafficStats → TrafficStats
engine_traffic ws = engine_traffic_from no_traffic ws

-- The six numbers by name.
pub data Number : Type 0 where
  bytes_sent num_writes bytes_rcvd num_reads msgs_sent msgs_rcvd : Number

abbrev pub number : Number → TrafficStats → ℕ
number bytes_sent t = t.bytes_sent
number num_writes t = t.num_writes
number bytes_rcvd t = t.bytes_rcvd
number num_reads t = t.num_reads
number msgs_sent t = t.msgs_sent
number msgs_rcvd t = t.msgs_rcvd
