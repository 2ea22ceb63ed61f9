-- ===== src/Worker/Rates.antt =====
-- src/tcpkali_rate.h. A rate that is given is not negative; the bytes per second, which are floating
-- point, are left out.
use tcpkali.Base.{ℕ, true, false, ltb, if◌then◌else◌}
use tcpkali.Worker.Connections.{
  RateBase, unlimited, bytes_per_second, messages_per_second, BandwidthLimit,
}

abbrev pub compute_bandwidth_limit : RateBase → BandwidthLimit
compute_bandwidth_limit bytes_per_second = record { is_set = true; minimal_move_size = 1 }
compute_bandwidth_limit unlimited = record { is_set = false; minimal_move_size = 1460 }
compute_bandwidth_limit messages_per_second = record { is_set = false; minimal_move_size = 1460 }

abbrev pub compute_bandwidth_limit_by_message_size : RateBase → ℕ → BandwidthLimit
compute_bandwidth_limit_by_message_size unlimited message_size = record {
  is_set = false;
  minimal_move_size = 1460;
}
compute_bandwidth_limit_by_message_size bytes_per_second message_size = record {
  is_set = true;
  minimal_move_size = 1;
}
compute_bandwidth_limit_by_message_size messages_per_second message_size = record {
  is_set = true;
  minimal_move_size = if ltb message_size 1460 then message_size else 1460;
}
