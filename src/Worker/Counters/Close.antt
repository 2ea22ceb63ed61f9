-- ===== src/Worker/Counters/Close.antt =====
-- The counters when many connections are closed, flushed or opened at once.
use tcpkali.Base.{ℕ, ◌-◌, ◌≡◌, refl, sym, ap, subst, ◌∙◌, List, [], ◌∷◌, none, leb, arith}
use tcpkali.Worker.Events.{recompute_all, recompute_rate}
use tcpkali.Worker.Connections.{
  RateBase, ConnType, ConnState, Connection, Worker, find, put, remove,
}
use tcpkali.Worker.Outcomes.{Holds, Holds-bind, Holds-mono, Holds-both, if_lem}
use tcpkali.Worker.Closed.{
  find-first, remove-first, put-first, rest, closed_rest, close_connection-rest,
}
use tcpkali.Worker.Close.{
  CloseReason, ccr_clean, close_connection, close_each, expire_each, expire_channel_lives,
  lifetime_limited, reported_all, connections_flush_stats,
}
use tcpkali.Worker.Counters.{
  number_of, number_of-CountedAs, CountedAs, IsCounted, close_connection-IsCounted,
}

-- The connections that are still to be looked at are all that are open.
abbrev Left : List Connection → Worker → Type 0
Left cs w = IsCounted w × (w.open_conns ≡ cs)

-- The connection at the head.
close_first :
    (w : Worker) (c : Connection) (cs : List Connection) (reason : CloseReason)
    → Left (c ∷ cs) w
    → Holds (Left cs) (close_connection w c reason)
close_first w c cs reason (h, e) =
    Holds-both IsCounted (λ v. v.open_conns ≡ cs) _
      (close_connection-IsCounted w c c reason (ap (find c.sockfd) e ∙ find-first c cs)
        (subst (CountedAs w) (e ∙ sym (put-first c cs) ∙ sym (ap (put c) e)) h))
      (Holds-mono (λ v. rest v ≡ closed_rest c (rest w)) (λ v. v.open_conns ≡ cs) _
        (close_connection-rest w c reason)
        λ v k. ap (λ r. r.open_conns) k ∙ ap (remove c.sockfd) e ∙ remove-first c cs)

-- Closing all leaves none open, with counters that say so.
pub close_each-Left :
    (reason : CloseReason) (cs : List Connection) (w : Worker)
    → Left cs w
    → Holds (Left []) (close_each reason cs w)
unfolding close_each
close_each-Left reason [] w h = h
close_each-Left reason (c ∷ cs) w h =
    Holds-bind (Left cs) (Left []) _ _ (close_first w c cs reason h) (close_each-Left reason cs)

expire_each-IsCounted :
    (now : ℕ) (cs : List Connection) (w : Worker)
    → Left cs w
    → Holds IsCounted (expire_each now cs w)
unfolding expire_each
expire_each-IsCounted now [] w h = h.0
expire_each-IsCounted now (c ∷ cs) w h =
    if_lem (Holds IsCounted) (leb c.channel_eol_point (now - w.params.epoch)) _ _
      (Holds-bind (Left cs) IsCounted _ _ (close_first w c cs ccr_clean h)
        (expire_each-IsCounted now cs))
      h.0

pub expire-IsCounted :
    (now : ℕ) (w : Worker) → IsCounted w → Holds IsCounted (expire_channel_lives now w)
unfolding expire_channel_lives
expire-IsCounted now w h =
    if_lem (Holds IsCounted) (lifetime_limited w.params.channel_lifetime) _ _
      (expire_each-IsCounted now w.open_conns (record w { lifetime_timer = none }) (h, refl)) tt

number-reported :
    (f : ConnType → ConnState → ℕ) (xs : List Connection)
    → number_of f (reported_all xs) ≡ number_of f xs
number-reported f [] = refl
number-reported f (x ∷ xs) = omega (arith, number-reported f xs)

pub flush-IsCounted : (w : Worker) → IsCounted w → IsCounted (connections_flush_stats w)
unfolding connections_flush_stats
flush-IsCounted w h = number_of-CountedAs w w.open_conns _ (λ f. number-reported f w.open_conns) h

number-recompute_all :
    (f : ConnType → ConnState → ℕ) (rate : RateBase) (xs : List Connection)
    → number_of f (recompute_all rate xs) ≡ number_of f xs
number-recompute_all f rate [] = refl
number-recompute_all f rate (x ∷ xs) = omega (arith, number-recompute_all f rate xs)

pub recompute-IsCounted :
    (rate : RateBase) (w : Worker) → IsCounted w → IsCounted (recompute_rate rate w)
unfolding recompute_rate
recompute-IsCounted rate w h =
    number_of-CountedAs w w.open_conns (recompute_all rate w.open_conns)
      (λ f. number-recompute_all f rate w.open_conns) h
