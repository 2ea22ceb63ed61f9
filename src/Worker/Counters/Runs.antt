-- ===== src/Worker/Counters/Runs.antt =====
-- The counters over runs of the event loop.
use tcpkali.Base.{refl, Bytes, List, [], ◌∷◌}
use tcpkali.Worker.Connections.{connected, Worker}
use tcpkali.Worker.Outcomes.{Holds, Holds-bind}
use tcpkali.Worker.Events
use tcpkali.Worker.Served.{Keeps, timer-keeps, ready-keeps, passive-keeps}
use tcpkali.Worker.Counters.{IsCounted, close_connection-IsCounted}
use tcpkali.Worker.Counters.Close.{flush-IsCounted, recompute-IsCounted, expire-IsCounted}
use tcpkali.Worker.Counters.Open.{start-IsCounted, accept-IsCounted}
use tcpkali.Worker.Counters.Pending.{Pending, find-Pending, Same-Pending}
use tcpkali.Worker.Counters.Established.{established-Pending}

kept : Keeps IsCounted Pending
kept = record {
  found = λ w c h e. find-Pending w c c h e refl refl;
  same = Same-Pending;
  stored = λ w c q. q.2;
  closed = λ w c reason q. close_connection-IsCounted w c q.0 reason q.1 q.2;
  established =
      λ w c h e s. established-Pending w c (record c { conn_state = connected }) h e s refl refl;
}

step-IsCounted :
    (accept_of : Bytes → Bytes) (w : Worker) (e : Events.Event)
    → IsCounted w
    → Holds IsCounted (Events.step accept_of w e)
unfolding Events.step
step-IsCounted accept_of w (Events.starts socket bound r made now) h =
    start-IsCounted w socket bound r made now h
step-IsCounted accept_of w (Events.accepts socket named made now) h =
    accept-IsCounted w socket named made now h
step-IsCounted accept_of w (Events.connection_timer fd) h =
    timer-keeps IsCounted Pending kept accept_of w fd h
step-IsCounted accept_of w Events.stats_timer h = flush-IsCounted w h
step-IsCounted accept_of w (Events.recomputes rate) h = recompute-IsCounted rate w h
step-IsCounted accept_of w (Events.lifetime_timer now) h = expire-IsCounted now w h
step-IsCounted accept_of w (Events.ready fd revents io) h =
    ready-keeps IsCounted Pending kept accept_of w fd revents io h
step-IsCounted accept_of w (Events.passive_ready fd r s written) h =
    passive-keeps IsCounted Pending kept accept_of w fd r s written h

-- Whatever happens to a worker, as long as the process goes on, its three counters of open
-- connections are the numbers of connections that are being established, that are established and
-- outgoing, and that are incoming, up to the 32 bits of the counters; and no connection is another.
pub run-IsCounted :
    (accept_of : Bytes → Bytes) (w : Worker) (es : List Events.Event)
    → IsCounted w
    → Holds IsCounted (Events.run accept_of w es)
unfolding Events.run
run-IsCounted accept_of w [] h = h
run-IsCounted accept_of w (e ∷ es) h =
    Holds-bind IsCounted IsCounted _ _ (step-IsCounted accept_of w e h)
      λ v k. run-IsCounted accept_of v es k
