-- ===== src/Worker/Opened.antt =====
-- What opening does to the connections, the traffic numbers and the lifetime timer.
use tcpkali.Base.{
  ℕ, ◌+◌, ◌≡◌, refl, ◌⊎◌, inl, inr, Bool, not, ◌&&◌, [], ◌∷◌, ◌++◌, Option, some, ◌==◌,
  if◌then◌else◌, arith,
}
use tcpkali.Engine.Addresses.{pick_remote_address}
use tcpkali.Worker.Traffic.{no_traffic}
use tcpkali.Worker.Connections.{
  ConnType, conn_outgoing, conn_incoming, ConnState, connected, connecting, Connection, Params,
  Worker,
}
use tcpkali.Worker.Outcomes.{Holds, if_lem}
use tcpkali.Worker.Close.{
  lifetime_limited, count_failure, count_remote_failure, setup_channel_lifetime_timer,
}
use tcpkali.Worker.Open
use tcpkali.Worker.Closed.{Rest, rest}

-- A connection as it is opened at `now`.
abbrev pub IsFresh : Params → ℕ → Connection → Type 0
IsFresh p now c =
    (c.traffic_ongoing ≡ no_traffic)
    × (c.traffic_reported ≡ no_traffic)
    × (c.channel_eol_point ≡ Open.eol_point p.channel_lifetime now p.epoch)

-- The timer is set where the connection is the only one.
abbrev pub opened_timer : ℕ → Rest → Option ℕ
opened_timer now r =
    if lifetime_limited r.params.channel_lifetime && Open.is_empty r.open_conns
    then some (now + Open.first_timeout r.params.channel_lifetime)
    else r.lifetime_timer

abbrev pub opened_rest : ℕ → Connection → Rest → Rest
opened_rest now c r = record {
  params = r.params;
  open_conns = r.open_conns ++ c ∷ [];
  lifetime_timer = opened_timer now r;
  worker_traffic_stats = r.worker_traffic_stats;
}

-- Nothing is opened, or one connection at the tail.
abbrev pub Opens : ℕ → Worker → Worker → Type 0
Opens now w v =
    (rest v ≡ rest w)
    ⊎ ((c : Connection) × IsFresh w.params now c × (rest v ≡ opened_rest now c (rest w)))

inserted_rest :
    (b : Bool) (c : Connection) (now : ℕ) (w : Worker) (t : ConnType) (fd : ℕ)
    → rest (
        Open.insert_tail c (
          if b
          then setup_channel_lifetime_timer now
              (Open.first_timeout w.params.channel_lifetime)
              (Open.maybe_enable_dump t fd w)
          else Open.maybe_enable_dump t fd w))
      ≡ record {
        params = w.params;
        open_conns = w.open_conns ++ c ∷ [];
        lifetime_timer =
            if b
            then some (now + Open.first_timeout w.params.channel_lifetime)
            else w.lifetime_timer;
        worker_traffic_stats = w.worker_traffic_stats;
      }
inserted_rest b c now w t fd = ground arith

common-Opens :
    (w : Worker) (made : Open.Made) (index : ℕ) (t : ConnType) (s : ConnState) (fd now : ℕ)
    → Holds (Opens now w) (Open.common_connection_init w made index t s fd now)
unfolding Open.common_connection_init
common-Opens w made index t s fd now =
    if_lem (Holds (Opens now w)) (Open.want_catch_connect w s && not (Open.is_outgoing t)) _ _ tt (
      inr (
        Open.initial_connection w made index t s fd now,
        (refl, refl, refl),
        inserted_rest (lifetime_limited w.params.channel_lifetime && Open.is_empty w.open_conns)
            (Open.initial_connection w made index t s fd now) now w t fd,
      ))

after_connect-Opens :
    (r : Open.Connect) (made : Open.Made) (index fd now : ℕ) (w : Worker)
    → Holds (Opens now w) (Open.after_connect r made index fd now w)
unfolding Open.after_connect
after_connect-Opens Open.connected_at_once made index fd now w =
    if_lem (Holds (Opens now w)) (Open.no_lifetime w.params.channel_lifetime) _ _ (inl refl)
      (common-Opens (Open.one_outgoing w) made index conn_outgoing connected fd now)
after_connect-Opens Open.in_progress made index fd now w =
    common-Opens (Open.one_connecting w) made index conn_outgoing connecting fd now
after_connect-Opens Open.address_not_available made index fd now w =
    if_lem (λ v. Opens now w (count_failure (count_remote_failure index v)))
      (w.params.n_source_addresses == 0) w (count_failure w) (inl refl) (inl refl)
after_connect-Opens Open.refused made index fd now w = inl refl

attempt-Opens :
    (socket : Open.Opened) (bound : Bool) (r : Open.Connect) (made : Open.Made) (index now : ℕ)
    (w : Worker)
    → Holds (Opens now w) (Open.attempt socket bound r made index now w)
attempt-Opens (Open.opened fd) bound r made index now w =
    if_lem (Holds (Opens now w)) (not (w.params.n_source_addresses == 0) && not bound) _ _
      (inl refl) (after_connect-Opens r made index fd now w)
attempt-Opens Open.too_many_files bound r made index now w = tt
attempt-Opens Open.other_error bound r made index now w = inl refl

pub start-Opens :
    (w : Worker) (socket : Open.Opened) (bound : Bool) (r : Open.Connect) (made : Open.Made)
    (now : ℕ)
    → Holds (Opens now w) (Open.start_new_connection w socket bound r made now)
unfolding Open.start_new_connection
start-Opens w socket bound r made now =
    let picked = pick_remote_address w.remote_stats w.params.n_remote_addresses w.address_offset in
    attempt-Opens socket bound r made picked.0 now (Open.count_attempt picked.0 picked.1 w)

pub accept-Opens :
    (w : Worker) (socket : Open.Opened) (named : Bool) (made : Open.Made) (now : ℕ)
    → Holds (Opens now w) (Open.accept_cb w socket named made now)
unfolding Open.accept_cb
accept-Opens w (Open.opened fd) named made now =
    if_lem (Holds (Opens now w)) (Open.no_lifetime w.params.channel_lifetime) _ _ (inl refl) (
      if_lem (Holds (Opens now w)) (not named) _ _ (inl refl) (
        common-Opens (Open.one_incoming (Open.count_accepted w)) made 0 conn_incoming connected fd
          now))
accept-Opens w Open.too_many_files named made now =
    if_lem (Holds (Opens now w)) (w.params.n_remote_addresses == 0) _ _ (inl refl) tt
accept-Opens w Open.other_error named made now = inl refl
