-- ===== src/Engine/Addresses.antt =====
-- `pick_remote_address` of src/tcpkali_engine.c: the addresses in turn, without those of which all of
-- more than 10 attempts failed. The counter `address_offset` has 32 bits.
use tcpkali.Base.{ℕ, zero, suc, ◌+◌, ◌%◌, ◌^◌, Bool, ◌&&◌, ltb, ◌==◌, if◌then◌else◌}

-- `struct remote_stats`.
pub record RemoteStats : Type 0 where
  pub connection_attempts : ℕ
  pub connection_failures : ℕ

abbrev pub is_broken : RemoteStats → Bool
is_broken rs = ltb 10 rs.connection_attempts && rs.connection_failures == rs.connection_attempts

abbrev pub next_offset : ℕ → ℕ
next_offset offset = (offset + 1) % 2 ^ 32

module _ (stats : ℕ → RemoteStats) (n_addrs : ℕ) where
  -- The loop: the number of the address, and the new `address_offset`.
  unfoldable pub pick_from : ℕ → ℕ → ℕ → ℕ × ℕ
  pick_from zero offset off = (off, offset)
  pick_from (suc attempts) offset off =
      let rest = pick_from attempts (next_offset offset) (offset % n_addrs) in
      if is_broken (stats (offset % n_addrs)) then rest else (offset % n_addrs, next_offset offset)

  unfoldable pub pick_remote_address : ℕ → ℕ × ℕ
  unfolding pick_from
  pick_remote_address offset = pick_from n_addrs offset 0
