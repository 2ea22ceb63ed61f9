-- ===== src/Worker/Counters/Open.antt =====
-- The counters when connections are opened.
use tcpkali.Base.{ℕ, ◌+◌, ◌≡◌, refl, Bool, not, ◌&&◌, List, [], ◌∷◌, ◌++◌, ◌==◌, arith}
use tcpkali.Engine.Addresses.{pick_remote_address}
use tcpkali.Worker.Connections.{
  ConnType, conn_outgoing, conn_incoming, ConnState, connected, connecting, Connection, Worker,
}
use tcpkali.Worker.Outcomes.{Holds, if_lem}
use tcpkali.Worker.Totals.{total-append}
use tcpkali.Worker.Close.{lifetime_limited, count_failure, count_remote_failure}
use tcpkali.Worker.Open
use tcpkali.Worker.Counters.{
  as_connecting, as_outgoing, as_incoming, as_stray, number_of, CountedAs, IsCounted,
}

-- `w` counts one connection more than are open.
abbrev CountsOneMore : ConnType → ConnState → Worker → Type 0
CountsOneMore t s w =
    (c : Connection) → c.conn_type ≡ t → c.conn_state ≡ s → CountedAs w (w.open_conns ++ c ∷ [])

common-IsCounted :
    (w : Worker) (made : Open.Made) (index : ℕ) (t : ConnType) (s : ConnState) (fd now : ℕ)
    → CountsOneMore t s w
    → Holds IsCounted (Open.common_connection_init w made index t s fd now)
unfolding Open.common_connection_init
common-IsCounted w made index t s fd now h =
    let c = Open.initial_connection w made index t s fd now in
    let dumping = Open.maybe_enable_dump t fd w in
    if_lem (Holds IsCounted) (Open.want_catch_connect w s && not (Open.is_outgoing t)) _ _ tt (
      if_lem (λ v. IsCounted (Open.insert_tail c v))
        (lifetime_limited w.params.channel_lifetime && Open.is_empty w.open_conns) _ dumping
        (h c refl refl) (h c refl refl))

number-append :
    (f : ConnType → ConnState → ℕ) (xs : List Connection) (c : Connection)
    → number_of f (xs ++ c ∷ []) ≡ number_of f xs + f c.conn_type c.conn_state
number-append f xs c = omega (arith, total-append (λ x. f x.conn_type x.conn_state) xs (c ∷ []))

connecting-one_more :
    (w : Worker) → IsCounted w → CountsOneMore conn_outgoing connecting (Open.one_connecting w)
connecting-one_more w h c t s =
    let n1 = number-append as_connecting w.open_conns c in
    let n2 = number-append as_outgoing w.open_conns c in
    let n3 = number-append as_incoming w.open_conns c in
    let n4 = number-append as_stray w.open_conns c in ground arith

outgoing-one_more :
    (w : Worker) → IsCounted w → CountsOneMore conn_outgoing connected (Open.one_outgoing w)
outgoing-one_more w h c t s =
    let n1 = number-append as_connecting w.open_conns c in
    let n2 = number-append as_outgoing w.open_conns c in
    let n3 = number-append as_incoming w.open_conns c in
    let n4 = number-append as_stray w.open_conns c in ground arith

incoming-one_more :
    (w : Worker)
    → IsCounted w
    → CountsOneMore conn_incoming connected (Open.one_incoming (Open.count_accepted w))
incoming-one_more w h c t s =
    let n1 = number-append as_connecting w.open_conns c in
    let n2 = number-append as_outgoing w.open_conns c in
    let n3 = number-append as_incoming w.open_conns c in
    let n4 = number-append as_stray w.open_conns c in ground arith

after_connect-IsCounted :
    (r : Open.Connect) (made : Open.Made) (index fd now : ℕ) (w : Worker)
    → IsCounted w
    → Holds IsCounted (Open.after_connect r made index fd now w)
unfolding Open.after_connect
after_connect-IsCounted Open.connected_at_once made index fd now w h =
    if_lem (Holds IsCounted) (Open.no_lifetime w.params.channel_lifetime) _ _ h (
      common-IsCounted (Open.one_outgoing w) made index conn_outgoing connected fd now
        (outgoing-one_more w h))
after_connect-IsCounted Open.in_progress made index fd now w h =
    common-IsCounted (Open.one_connecting w) made index conn_outgoing connecting fd now
      (connecting-one_more w h)
after_connect-IsCounted Open.address_not_available made index fd now w h =
    if_lem (λ v. IsCounted (count_failure (count_remote_failure index v)))
      (w.params.n_source_addresses == 0) w (count_failure w) h h
after_connect-IsCounted Open.refused made index fd now w h = h

attempt-IsCounted :
    (socket : Open.Opened) (bound : Bool) (r : Open.Connect) (made : Open.Made) (index now : ℕ)
    (w : Worker)
    → IsCounted w
    → Holds IsCounted (Open.attempt socket bound r made index now w)
attempt-IsCounted (Open.opened fd) bound r made index now w h =
    if_lem (Holds IsCounted) (not (w.params.n_source_addresses == 0) && not bound) _ _ h
      (after_connect-IsCounted r made index fd now w h)
attempt-IsCounted Open.too_many_files bound r made index now w h = tt
attempt-IsCounted Open.other_error bound r made index now w h = h

pub start-IsCounted :
    (w : Worker) (socket : Open.Opened) (bound : Bool) (r : Open.Connect) (made : Open.Made)
    (now : ℕ)
    → IsCounted w
    → Holds IsCounted (Open.start_new_connection w socket bound r made now)
unfolding Open.start_new_connection
start-IsCounted w socket bound r made now h =
    let picked = pick_remote_address w.remote_stats w.params.n_remote_addresses w.address_offset in
    attempt-IsCounted socket bound r made picked.0 now (Open.count_attempt picked.0 picked.1 w) h

pub accept-IsCounted :
    (w : Worker) (socket : Open.Opened) (named : Bool) (made : Open.Made) (now : ℕ)
    → IsCounted w
    → Holds IsCounted (Open.accept_cb w socket named made now)
unfolding Open.accept_cb
accept-IsCounted w (Open.opened fd) named made now h =
    if_lem (Holds IsCounted) (Open.no_lifetime w.params.channel_lifetime) _ _ h (
      if_lem (Holds IsCounted) (not named) _ _ h (
        common-IsCounted (Open.one_incoming (Open.count_accepted w)) made 0 conn_incoming connected
          fd now (incoming-one_more w h)))
accept-IsCounted w Open.too_many_files named made now h =
    if_lem (Holds IsCounted) (w.params.n_remote_addresses == 0) _ _ h tt
accept-IsCounted w Open.other_error named made now h = h
