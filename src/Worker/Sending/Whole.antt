-- ===== src/Worker/Sending/Whole.antt =====
-- The whole of `process_WRITE`: what goes out is the data in order, and no assertion fails.
use tcpkali.Base.{ℕ, ◌≤◌, ◌<◌, Bytes, ◌++◌, Option, none, some}
use tcpkali.Engine.Channel.{LbReturnValue}
use tcpkali.Worker.Connections.{Connection, Params}
use tcpkali.Worker.Sending
use tcpkali.Worker.Sending.Stream.{PlacedIn}
use tcpkali.Worker.Sending.Counted.{Countable}

-- Behind the bytes sent before.
abbrev pub SentPlaced : Bytes → Sending.Sent → Type 0
SentPlaced before (Sending.goes_on d s) = PlacedIn d (before ++ s)
SentPlaced before (Sending.closes d s) = PlacedIn d (before ++ s)
SentPlaced before (Sending.waits d s) = PlacedIn d (before ++ s)
SentPlaced before Sending.breaks = ⊥

-- What is needed of a connection besides its place.
pub record IsReady (p : Params) (c : Connection) : Type 0 where
  pub paced : 0 < c.send_limit.minimal_move_size
  pub countable : Countable p c

abbrev Limits : ℕ → Option (LbReturnValue × ℕ) → Type 0
Limits body none = ⊥
Limits body (some (r, n)) = n ≤ body
