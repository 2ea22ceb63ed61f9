-- ===== src/Worker/Lifetimes/Runs.antt =====
-- The timer for the ends of connections over runs of the event loop.
use tcpkali.Base.{
  ℕ, ◌-◌, ◌≤◌, ◌≡◌, refl, sym, ap, subst, ◌∙◌, inl, inr, Bool-cases, false, Bytes, List, [], ◌∷◌,
  Option, none, some, arith,
}
use tcpkali.Worker.Connections.{
  RateBase, connected, connecting, Connection, Worker, find, put, Outcome, proceeds, faults,
}
use tcpkali.Worker.Outcomes.{Holds, Holds-bind, Holds-mono}
use tcpkali.Worker.Close.{
  lifetime_limited, reported_all, connections_flush_stats, expire_channel_lives,
}
use tcpkali.Worker.Closed.{Rest, rest, closed_rest, close_connection-rest}
use tcpkali.Worker.Opened.{Opens, start-Opens, accept-Opens}
use tcpkali.Worker.Events
use tcpkali.Worker.Served.{Keeps, timer-keeps, ready-keeps, passive-keeps}
use tcpkali.Worker.Lifetimes.{IsOrdered, later, next_timer, expire_channel_lives-later}
use tcpkali.Worker.Lifetimes.Orders.{All-later, IsOrdered-later, later-After}
use tcpkali.Worker.Lifetimes.Timed.{
  DueFor, EndsBy, IsTimed, later-IsTimed, removed-IsTimed, put-IsTimed, opened-IsTimed,
  expired-Armed, reported-All, reported-IsOrdered, recomputed-All, recomputed-IsOrdered,
}

abbrev pub TimedAt : ℕ → Worker → Type 0
TimedAt clock w = IsTimed clock (rest w)

-- The connection that a callback is at work on ends when the one in the list does.
abbrev Working : ℕ → Worker → Connection → Type 0
Working clock w c =
    TimedAt clock w
    × ((d : Connection) × (find c.sockfd w.open_conns ≡ some d)
        × (c.channel_eol_point ≡ d.channel_eol_point))

kept : (clock : ℕ) → Keeps (TimedAt clock) (Working clock)
kept clock = record {
  found = λ w c h e. (h, (c, e, refl));
  same = λ w c d s q. (
    q.0,
    (
      q.1.0,
      ap (λ i. find i.sockfd w.open_conns) s ∙ q.1.1,
      ap (λ i. i.channel_eol_point) s ∙ q.1.2,
    ),
  );
  stored = λ w c q. put-IsTimed clock (rest w) c q.1.0 q.1.1 q.1.2 q.0;
  closed = λ w c reason q.
      Holds-mono (λ v. rest v ≡ closed_rest c (rest w)) (TimedAt clock) _
        (close_connection-rest w c reason)
        λ v k. subst (IsTimed clock) (sym k) (removed-IsTimed clock (rest w) c q.0);
  established = λ w c h e s. (h, (c, e, refl));
}

Opens-IsTimed : (now : ℕ) (w v : Worker) → Opens now w v → TimedAt now w → TimedAt now v
Opens-IsTimed now w v (inl e) t = subst (IsTimed now) (sym e) t
Opens-IsTimed now w v (inr (c, fresh, e)) t =
    subst (IsTimed now) (sym e) (opened-IsTimed now (rest w) c fresh.2 t)

flush-IsTimed :
    (clock : ℕ) (w : Worker) → TimedAt clock w → TimedAt clock (connections_flush_stats w)
unfolding connections_flush_stats
flush-IsTimed clock w t = record {
  begun = t.begun;
  ordered = reported-IsOrdered w.open_conns t.ordered;
  bounded =
      reported-All (EndsBy w.params clock) w.open_conns (λ c d e h. omega (arith, e, h)) t.bounded;
  armed = λ limited. elim (t.armed limited) [
    | inl e ↦ inl (ap reported_all e)
    | inr (due, set, h) ↦ inr (
      due,
      set,
      reported-All (DueFor w.params.epoch due) w.open_conns (λ c d e k. omega (arith, e, k)) h,
    )
  ];
}

recompute-IsTimed :
    (rate : RateBase) (clock : ℕ) (w : Worker)
    → TimedAt clock w
    → TimedAt clock (Events.recompute_rate rate w)
unfolding Events.recompute_rate
recompute-IsTimed rate clock w t = record {
  begun = t.begun;
  ordered = recomputed-IsOrdered rate w.open_conns t.ordered;
  bounded =
      recomputed-All (EndsBy w.params clock) rate w.open_conns (λ c d e h. omega (arith, e, h))
        t.bounded;
  armed = λ limited. elim (t.armed limited) [
    | inl e ↦ inl (ap (Events.recompute_all rate) e)
    | inr (due, set, h) ↦ inr (
      due,
      set,
      recomputed-All (DueFor w.params.epoch due) rate w.open_conns (λ c d e k. omega (arith, e, k))
          h,
    )
  ];
}

-- A worker after the timer has fired.
fired-IsTimed :
    (now : ℕ) (w v : Worker)
    → TimedAt now w
    → v.open_conns ≡ later (now - w.params.epoch) w.open_conns
    → v.lifetime_timer
      ≡ next_timer now (now - w.params.epoch) none (later (now - w.params.epoch) w.open_conns)
    → v.params ≡ w.params
    → TimedAt now v
fired-IsTimed now w v t opens timer same =
    let xs = later (now - w.params.epoch) w.open_conns in
    let o : IsOrdered xs = IsOrdered-later (now - w.params.epoch) w.open_conns t.ordered in
    let expected : Rest = record {
      params = w.params;
      open_conns = xs;
      lifetime_timer = next_timer now (now - w.params.epoch) none xs;
      worker_traffic_stats = v.worker_traffic_stats;
    } in
    subst (IsTimed now) (expected_rest v w.params xs expected.lifetime_timer opens timer same)
      (record {
        begun = t.begun;
        ordered = o;
        bounded = All-later (EndsBy w.params now) (now - w.params.epoch) w.open_conns t.bounded;
        armed = λ limited.
            expired-Armed now w.params.epoch none xs t.begun o
              (later-After (now - w.params.epoch) w.open_conns);
      })
  where
    expected_rest :
        (v : Worker) (p : tcpkali.Worker.Connections.Params) (xs : List Connection) (l : Option ℕ)
        → v.open_conns ≡ xs
        → v.lifetime_timer ≡ l
        → v.params ≡ p
        → record {
          params = p;
          open_conns = xs;
          lifetime_timer = l;
          worker_traffic_stats = v.worker_traffic_stats;
        }
          ≡ rest v
    expected_rest v p xs l a b c = ground arith

-- The time after an event.
abbrev pub event_time : ℕ → Events.Event → ℕ
event_time clock (Events.starts socket bound r made now) = now
event_time clock (Events.accepts socket named made now) = now
event_time clock (Events.connection_timer fd) = clock
event_time clock Events.stats_timer = clock
event_time clock (Events.recomputes rate) = clock
event_time clock (Events.lifetime_timer now) = now
event_time clock (Events.ready fd revents io) = clock
event_time clock (Events.passive_ready fd r s written) = clock

-- Time does not go back.
abbrev pub InOrder : ℕ → List Events.Event → Type 0
InOrder clock [] = Unit
InOrder clock (e ∷ es) = (clock ≤ event_time clock e) × InOrder (event_time clock e) es

abbrev pub last_time : ℕ → List Events.Event → ℕ
last_time clock [] = clock
last_time clock (e ∷ es) = last_time (event_time clock e) es

not_limited :
    (n : ℕ) (u : Worker)
    → lifetime_limited u.params.channel_lifetime ≡ false
    → expire_channel_lives n u ≡ faults
unfolding expire_channel_lives
not_limited n u h = rw h refl

expire-IsTimed :
    (now : ℕ) (w : Worker) → TimedAt now w → Holds (TimedAt now) (expire_channel_lives now w)
expire-IsTimed now w t = elim (Bool-cases (lifetime_limited w.params.channel_lifetime)) [
  | inl limited ↦
      let (v, e, opens, timer, same) = expire_channel_lives-later now w limited t.ordered in
      subst (Holds (TimedAt now)) (sym e) (fired-IsTimed now w v t opens timer same)
  | inr never ↦ subst (Holds (TimedAt now)) (sym (not_limited now w never)) tt
]

step-IsTimed :
    (accept_of : Bytes → Bytes) (clock : ℕ) (w : Worker) (e : Events.Event)
    → clock ≤ event_time clock e
    → TimedAt clock w
    → Holds (TimedAt (event_time clock e)) (Events.step accept_of w e)
unfolding Events.step
step-IsTimed accept_of clock w (Events.starts socket bound r made now) h t =
    Holds-mono (Opens now w) (TimedAt now) _ (start-Opens w socket bound r made now)
      λ v o. Opens-IsTimed now w v o (later-IsTimed clock now (rest w) h t)
step-IsTimed accept_of clock w (Events.accepts socket named made now) h t =
    Holds-mono (Opens now w) (TimedAt now) _ (accept-Opens w socket named made now)
      λ v o. Opens-IsTimed now w v o (later-IsTimed clock now (rest w) h t)
step-IsTimed accept_of clock w (Events.connection_timer fd) h t =
    timer-keeps (TimedAt clock) (Working clock) (kept clock) accept_of w fd t
step-IsTimed accept_of clock w Events.stats_timer h t = flush-IsTimed clock w t
step-IsTimed accept_of clock w (Events.recomputes rate) h t = recompute-IsTimed rate clock w t
step-IsTimed accept_of clock w (Events.lifetime_timer now) h t =
    expire-IsTimed now w (later-IsTimed clock now (rest w) h t)
step-IsTimed accept_of clock w (Events.ready fd revents io) h t =
    ready-keeps (TimedAt clock) (Working clock) (kept clock) accept_of w fd revents io t
step-IsTimed accept_of clock w (Events.passive_ready fd r s written) h t =
    passive-keeps (TimedAt clock) (Working clock) (kept clock) accept_of w fd r s written t

-- As long as time does not go back and the process goes on, the connections of a worker stand in
-- the order of their ends, none ends later than one opened now would, and where lifetimes are
-- limited and a connection is open, the timer is set for the end of the first or earlier.
pub run-IsTimed :
    (accept_of : Bytes → Bytes) (clock : ℕ) (w : Worker) (es : List Events.Event)
    → InOrder clock es
    → IsTimed clock (rest w)
    → Holds (λ v. IsTimed (last_time clock es) (rest v)) (Events.run accept_of w es)
unfolding Events.run
run-IsTimed accept_of clock w [] o t = t
run-IsTimed accept_of clock w (e ∷ es) o t =
    Holds-bind (TimedAt (event_time clock e)) (TimedAt (last_time (event_time clock e) es)) _ _
      (step-IsTimed accept_of clock w e o.0 t)
      λ v k. run-IsTimed accept_of (event_time clock e) v es o.1 k
