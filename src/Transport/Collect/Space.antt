-- ===== src/Transport/Collect/Space.antt =====
-- There is room for what was asked for.
use tcpkali.Base.{ℕ, zero, suc, ◌+◌, ◌*◌, ◌≤◌, ◌==◌, if◌then◌else◌, arith}
use tcpkali.Transport.{Collection}
use tcpkali.Transport.Collect.{grow_space, ensure_space, count}

grow_space_enough :
    (fuel wanted size : ℕ) → wanted ≤ size + fuel → wanted ≤ grow_space fuel wanted size
unfolding grow_space
grow_space_enough zero wanted size h = omega arith
grow_space_enough (suc fuel) wanted size h =
    ground
      (arith, grow_space_enough fuel wanted (2 * (if size == 0 then 8 else size)) (ground arith))

-- The loop of `message_collection_ensure_space` ends with room for `need` more snippets.
pub ensure_space_enough :
    (mc : Collection) (need : ℕ) → count mc + need ≤ (ensure_space mc need).snippets_size
unfolding ensure_space
ensure_space_enough mc need =
    grow_space_enough (count mc + need) (count mc + need) mc.snippets_size (omega arith)
