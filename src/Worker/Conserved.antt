-- ===== src/Worker/Conserved.antt =====
-- Traffic that is counted at a connection is never lost: what its worker has been told of and what
-- it has not been told of yet are together what was counted.
use tcpkali.Base.{ℕ, ◌+◌, ◌%◌, ◌^◌, ◌≡◌, refl, sym, ap, ◌∙◌, List, [], ◌∷◌, some, arith}
use tcpkali.Worker.Traffic.{
  wide_subtract, TrafficStats, Number, bytes_sent, num_writes, bytes_rcvd, num_reads, msgs_sent,
  msgs_rcvd, number,
}
use tcpkali.Worker.Connections.{Connection, Worker, find, put, remove}
use tcpkali.Worker.Outcomes.{Holds, Holds-bind, Holds-mono}
use tcpkali.Worker.Totals.{total, total-remove-put}
use tcpkali.Worker.Close.{
  CloseReason, delta, reported, reported_all, connection_flush_stats, flush_each,
  connections_flush_stats, close_connection, close_each,
}
use tcpkali.Worker.Closed.{Rest, rest, closed_rest, close_connection-rest, remove-first}

-- What the connections have not reported yet.
abbrev pub unreported : Number → List Connection → ℕ
unreported f = total (λ c. number f (delta c))

-- All that was counted so far, in 64 bits.
abbrev pub settled : Number → TrafficStats → List Connection → ℕ
settled f tally xs = (number f tally + unreported f xs) % 2 ^ 64

flushed :
    (f : Number) (c : Connection) (tally : TrafficStats)
    → number f (connection_flush_stats c tally) ≡ (number f tally + number f (delta c)) % 2 ^ 64
flushed bytes_sent c tally = refl
flushed num_writes c tally = refl
flushed bytes_rcvd c tally = refl
flushed num_reads c tally = refl
flushed msgs_sent c tally = refl
flushed msgs_rcvd c tally = refl

same_wide : (n : ℕ) → wide_subtract n n ≡ 0
same_wide n = omega arith

delta-reported : (f : Number) (c : Connection) → number f (delta (reported c)) ≡ 0
delta-reported bytes_sent c = same_wide c.traffic_ongoing.bytes_sent
delta-reported num_writes c = same_wide c.traffic_ongoing.num_writes
delta-reported bytes_rcvd c = same_wide c.traffic_ongoing.bytes_rcvd
delta-reported num_reads c = same_wide c.traffic_ongoing.num_reads
delta-reported msgs_sent c = same_wide c.traffic_ongoing.msgs_sent
delta-reported msgs_rcvd c = same_wide c.traffic_ongoing.msgs_rcvd

unreported-all : (f : Number) (xs : List Connection) → unreported f (reported_all xs) ≡ 0
unreported-all f [] = refl
unreported-all f (x ∷ xs) = omega (arith, delta-reported f x, unreported-all f xs)

-- Flushing the connection that is gone afterwards.
settled-flush :
    (f : Number) (c : Connection) (tally : TrafficStats) (xs ys : List Connection)
    → unreported f ys + number f (delta c) ≡ unreported f xs
    → settled f (connection_flush_stats c tally) ys ≡ settled f tally xs
settled-flush f c tally xs ys e = omega (arith, flushed f c tally, e)

-- What is settled in the parts of a worker.
abbrev pub settled_rest : Number → Rest → ℕ
settled_rest f r = settled f r.worker_traffic_stats r.open_conns

abbrev pub settled_in : Number → Worker → ℕ
settled_in f w = settled_rest f (rest w)

flush_each-settled :
    (f : Number) (xs : List Connection) (tally : TrafficStats)
    → number f (flush_each xs tally) % 2 ^ 64 ≡ settled f tally xs
unfolding flush_each
flush_each-settled f [] tally = omega arith
flush_each-settled f (x ∷ xs) tally =
    flush_each-settled f xs (connection_flush_stats x tally)
    ∙ settled-flush f x tally (x ∷ xs) xs (omega arith)

pub flush-settled :
    (f : Number) (w : Worker) → settled_in f (connections_flush_stats w) ≡ settled_in f w
unfolding connections_flush_stats
flush-settled f w =
    omega (
      arith,
      unreported-all f w.open_conns,
      flush_each-settled f w.open_conns w.worker_traffic_stats,
    )

-- Closing an open connection settles what it counted.
pub close-settled :
    (f : Number) (w : Worker) (c d : Connection) (reason : CloseReason)
    → find c.sockfd w.open_conns ≡ some d
    → Holds
        (λ v. settled_in f v ≡ settled f w.worker_traffic_stats (put c w.open_conns))
        (close_connection w c reason)
close-settled f w c d reason e =
    Holds-mono (λ v. rest v ≡ closed_rest c (rest w)) _ _ (close_connection-rest w c reason)
      λ v k.
        ap (settled_rest f) k
        ∙ settled-flush f c w.worker_traffic_stats (put c w.open_conns)
            (remove c.sockfd w.open_conns)
            (total-remove-put (λ x. number f (delta x)) c d w.open_conns e)

-- The connections that are left to be looked at are all that are open.
abbrev LeftOf : Number → ℕ → List Connection → Worker → Type 0
LeftOf f n cs w = (settled_in f w ≡ n) × (w.open_conns ≡ cs)

pub close_first-settled :
    (f : Number) (n : ℕ) (w : Worker) (c : Connection) (cs : List Connection) (reason : CloseReason)
    → LeftOf f n (c ∷ cs) w
    → Holds (LeftOf f n cs) (close_connection w c reason)
close_first-settled f n w c cs reason (h, e) =
    Holds-mono (λ v. rest v ≡ closed_rest c (rest w)) (LeftOf f n cs) _
      (close_connection-rest w c reason)
      λ v k.
        let gone : v.open_conns ≡ cs =
          ap (λ r. r.open_conns) k ∙ ap (remove c.sockfd) e ∙ remove-first c cs in
        (
          ap (λ r. settled f r.worker_traffic_stats v.open_conns) k
              ∙ ap (settled f (connection_flush_stats c w.worker_traffic_stats)) gone
              ∙ settled-flush f c w.worker_traffic_stats (c ∷ cs) cs (omega arith)
              ∙ sym (ap (settled f w.worker_traffic_stats) e)
              ∙ h,
          gone,
        )

pub close_each-settled :
    (f : Number) (n : ℕ) (reason : CloseReason) (cs : List Connection) (w : Worker)
    → LeftOf f n cs w
    → Holds (LeftOf f n []) (close_each reason cs w)
unfolding close_each
close_each-settled f n reason [] w h = h
close_each-settled f n reason (c ∷ cs) w h =
    Holds-bind (LeftOf f n cs) (LeftOf f n []) _ _ (close_first-settled f n w c cs reason h)
      (close_each-settled f n reason cs)
