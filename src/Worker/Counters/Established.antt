-- ===== src/Worker/Counters/Established.antt =====
-- The counters when a connection is established.
use tcpkali.Base.{ℕ, ◌+◌, ◌≡◌, refl, sym, ap, ap₂, subst, ◌∙◌, List, some, arith}
use tcpkali.Worker.Connections.{
  ConnType, conn_outgoing, conn_incoming, conn_acceptor, ConnState, connected, connecting,
  Connection, Worker, find, put,
}
use tcpkali.Worker.Totals.{total-put, total-remove}
use tcpkali.Worker.Receiving.{}
use tcpkali.Worker.Events
use tcpkali.Worker.Counters.{
  as_connecting, as_outgoing, as_incoming, as_stray, number_of, CountedAs, IsCounted,
}
use tcpkali.Worker.Counters.Pending.{Pending}

-- No open connection but an outgoing one is being established.
only_outgoing : (t : ConnType) → as_stray t connecting ≡ 0 → t ≡ conn_outgoing
only_outgoing conn_outgoing h = refl
only_outgoing conn_incoming h = ground arith
only_outgoing conn_acceptor h = ground arith

-- Establishing moves the connection from one counter to the other.
moved-CountedAs :
    (w : Worker) (ys : List Connection)
    → ((f : ConnType → ConnState → ℕ)
        → number_of f ys + f conn_outgoing connecting
          ≡ number_of f w.open_conns + f conn_outgoing connected)
    → IsCounted w
    → CountedAs (Events.count_established w) ys
moved-CountedAs w ys move h =
    let a = move as_connecting in
    let b = move as_outgoing in let c = move as_incoming in let d = move as_stray in ground arith

pub established-Pending :
    (w : Worker) (c d : Connection)
    → IsCounted w
    → find d.sockfd w.open_conns ≡ some c
    → c.conn_state ≡ connecting
    → d.conn_type ≡ c.conn_type
    → d.conn_state ≡ connected
    → Pending (Events.count_established w) d
established-Pending w c d h e s t s' = (
  c,
  e,
  moved-CountedAs w (put d w.open_conns)
      (λ f.
        ap (λ n. number_of f (put d w.open_conns) + n) (sym (ap₂ f outgoing s))
        ∙ total-put (λ x. f x.conn_type x.conn_state) d c w.open_conns e
        ∙ ap (λ n. number_of f w.open_conns + n) (ap₂ f (t ∙ outgoing) s'))
      h,
)
  where
    stray : as_stray c.conn_type c.conn_state ≡ 0
    stray = omega (
      arith,
      h.none_stray,
      total-remove (λ x. as_stray x.conn_type x.conn_state) d.sockfd c w.open_conns e,
    )

    outgoing : c.conn_type ≡ conn_outgoing
    outgoing = only_outgoing c.conn_type (subst (λ k. as_stray c.conn_type k ≡ 0) s stray)
