-- ===== src/Worker/Exit.antt =====
-- What a worker leaves when its event loop has ended.
use tcpkali.Base.{◌%◌, ◌^◌, ◌≡◌, refl, ap, subst, ◌∙◌, List, [], ◌∷◌, arith}
use tcpkali.Worker.Traffic.{Number, number}
use tcpkali.Worker.Connections.{Connection, Worker, proceeds, ◌>>=◌}
use tcpkali.Worker.Outcomes.{Holds}
use tcpkali.Worker.Close.{
  ccr_clean, note_reason, close_connection, close_each, connections_flush_stats, worker_exit,
}
use tcpkali.Worker.Counters.{IsCounted, CountedAs}
use tcpkali.Worker.Counters.Close.{flush-IsCounted, close_each-Left}
use tcpkali.Worker.Conserved.{unreported, settled_in, flush-settled, close_each-settled}

-- A clean close never fails.
pub clean-proceeds :
    (w : Worker) (c : Connection) → (v : Worker) × (close_connection w c ccr_clean ≡ proceeds v)
unfolding close_connection note_reason
clean-proceeds w c = (_, refl)

close_each-proceeds :
    (cs : List Connection) (w : Worker) → (v : Worker) × (close_each ccr_clean cs w ≡ proceeds v)
unfolding close_each
close_each-proceeds [] w = (w, refl)
close_each-proceeds (c ∷ cs) w =
    let (v, e) = clean-proceeds w c in
    let (u, f) = close_each-proceeds cs v in
    (u, ap (λ o. o >>= λ x. close_each ccr_clean cs x) e ∙ f)

settled_none :
    (f : Number) (v : Worker)
    → v.open_conns ≡ []
    → number f v.worker_traffic_stats % 2 ^ 64 ≡ settled_in f v
settled_none f v e = omega (arith, ap (unreported f) e)

-- A worker whose event loop has ended closes all its connections: none is open, the three counters
-- of open connections are 0, and its traffic numbers are all that was counted at connections, in 64
-- bits.
pub worker_exit_total :
    (w : Worker)
    → IsCounted w
    → (v : Worker) × (worker_exit w ≡ proceeds v)
      × (v.open_conns ≡ [])
      × (v.outgoing_connecting ≡ 0)
      × (v.outgoing_established ≡ 0)
      × (v.incoming_established ≡ 0)
      × ((f : Number) → number f v.worker_traffic_stats % 2 ^ 64 ≡ settled_in f w)
unfolding worker_exit
worker_exit_total w h =
    let u = connections_flush_stats w in
    let (v, e) = close_each-proceeds u.open_conns u in
    let (counted, none_left) =
      subst (Holds (λ x. IsCounted x × (x.open_conns ≡ []))) e
        (close_each-Left ccr_clean u.open_conns u (flush-IsCounted w h, refl)) in
    let zero_counted : CountedAs v [] = subst (CountedAs v) none_left counted in
    (
      v,
      e,
      none_left,
      zero_counted.are_connecting,
      zero_counted.are_outgoing,
      zero_counted.are_incoming,
      λ f.
          let left =
            subst (Holds (λ x. (settled_in f x ≡ settled_in f w) × (x.open_conns ≡ []))) e (
              close_each-settled f (settled_in f w) ccr_clean u.open_conns u
                (flush-settled f w, refl)) in
          settled_none f v none_left ∙ left.0,
    )
