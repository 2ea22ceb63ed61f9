-- ===== src/Worker/Counters/Pending.antt =====
-- A connection that a callback is at work on.
use tcpkali.Base.{ℕ, ◌+◌, ◌≡◌, ap, ap₂, ◌∙◌, some, arith}
use tcpkali.Worker.Connections.{Connection, Worker, find, put}
use tcpkali.Worker.Totals.{total-put}
use tcpkali.Worker.Receiving.{}
use tcpkali.Worker.Identity.{Same}
use tcpkali.Worker.Counters.{number_of, number_of-CountedAs, CountedAs, IsCounted}

-- `c` is an open connection as it is by now, and is counted so.
abbrev pub Pending : Worker → Connection → Type 0
Pending w c =
    (d : Connection) × (find c.sockfd w.open_conns ≡ some d) × CountedAs w (put c w.open_conns)

-- One that is what it was, of its type and state.
pub find-Pending :
    (w : Worker) (c d : Connection)
    → IsCounted w
    → find d.sockfd w.open_conns ≡ some c
    → d.conn_type ≡ c.conn_type
    → d.conn_state ≡ c.conn_state
    → Pending w d
find-Pending w c d h e t s = (
  c,
  e,
  number_of-CountedAs w w.open_conns (put d w.open_conns)
      (λ f.
        cancel (f c.conn_type c.conn_state)
          (total-put (λ x. f x.conn_type x.conn_state) d c w.open_conns e) (ap₂ f t s))
      h,
)
  where
    cancel : (c : ℕ) {a b d : ℕ} → a + c ≡ b + d → d ≡ c → a ≡ b
    cancel c e k = omega arith

pub Same-Pending : (w : Worker) (c d : Connection) → Same c d → Pending w c → Pending w d
Same-Pending w c d same (b, e, h) =
    let fd : d.sockfd ≡ c.sockfd = ap (λ i. i.sockfd) same in
    let t : d.conn_type ≡ c.conn_type = ap (λ i. i.conn_type) same in
    let s : d.conn_state ≡ c.conn_state = ap (λ i. i.conn_state) same in
    let e' : find d.sockfd w.open_conns ≡ some b = ap (λ k. find k w.open_conns) fd ∙ e in
    (
      b,
      e',
      number_of-CountedAs w (put c w.open_conns) (put d w.open_conns)
          (λ f.
            alike (number_of f w.open_conns) (f b.conn_type b.conn_state)
              (total-put (λ x. f x.conn_type x.conn_state) d b w.open_conns e')
              (total-put (λ x. f x.conn_type x.conn_state) c b w.open_conns e) (ap₂ f t s))
          h,
    )
  where
    alike : (b c : ℕ) {a d e f : ℕ} → a + c ≡ b + d → e + c ≡ b + f → d ≡ f → a ≡ e
    alike b c p q r = omega arith
