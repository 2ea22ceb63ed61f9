-- ===== src/Engine/Channel.antt =====
-- `update_io_interest` and `limit_channel_bandwidth` of src/tcpkali_engine.c. What the vendored pacefier allows is an
-- argument; delays, which are floating point, are left out: the timer is set exactly where the result
-- is `lockstep` or `go_sleep`.
pub mod Laws
use tcpkali.Base.{
  ℕ, ◌+◌, ◌-◌, ◌*◌, ◌/◌, ◌%◌, Bool, true, false, not, ◌&&◌, ◌||◌, List, [], ◌∷◌, Option, none, some,
  ltb, ◌==◌, if◌then◌else◌,
}

-- The bits of `conn_wish`.
pub record ConnWish : Type 0 where
  pub read_interest : Bool
  pub read_blocked : Bool
  pub write_interest : Bool
  pub write_blocked : Bool
  pub write_delayed : Bool

pub record Events : Type 0 where
  pub read : Bool
  pub write : Bool

-- The events that the watcher is set to.
unfoldable pub update_io_interest : ConnWish → Events
update_io_interest w = record {
  read = w.read_interest && not w.read_blocked;
  write = w.write_interest && not (w.write_blocked || w.write_delayed);
}

pub data Event : Type 0 where
  tk_read tk_write : Event

pub data LbReturnValue : Type 0 where
  unlimited proceed lockstep go_sleep : LbReturnValue

-- Reading with less allowed than suggested, but not less than the smallest block.
abbrev pub read_batch : ℕ → ℕ
read_batch allowed = if ltb 1460 allowed then allowed else 1460

-- The result and the new `*suggested_move_size`. `limit_set` is `bw >= 0`; `none` is a division by 0.
unfoldable pub limit_channel_bandwidth : Bool → ℕ → ℕ → ℕ → Event → Option (LbReturnValue × ℕ)
limit_channel_bandwidth limit_set smallest allowed suggested event =
    if not limit_set
    then some (unlimited, suggested)
    else if not (ltb allowed suggested)
    then some (proceed, suggested)
    else if ltb allowed smallest
    then some (go_sleep, 0)
    else elim event [
      | tk_read ↦ some (proceed, read_batch allowed)
      | tk_write ↦ if smallest == 0 then none else some (lockstep, allowed - allowed % smallest)
    ]
