-- ===== src/Worker/Counters.antt =====
-- The counters of open connections are the numbers of the connections that are open.
pub mod Close
pub mod Open
pub mod Pending
pub mod Established
pub mod Runs
use tcpkali.Base.{
  ℕ, ◌+◌, ◌-◌, ◌%◌, ◌^◌, ◌≡◌, refl, sym, ap, subst, ◌∙◌, inl, inr, Bool-cases, Option-cases, Bool,
  true, false, Bytes, List, [], ◌∷◌, ◌++◌, Option, none, some, ltb, leb, ◌==◌, if◌then◌else◌, arith,
}
use tcpkali.Engine.Channel.{Events}
use tcpkali.Worker.Connections.{
  ConnType, conn_outgoing, conn_incoming, conn_acceptor, ConnState, connected, connecting,
  Connection, Worker, find, put, remove, Outcome, proceeds, exits, faults, ◌>>=◌,
}
use tcpkali.Worker.Outcomes.{Holds, Holds-bind, if_lem}
use tcpkali.Worker.Totals.{total, total-append, total-put, total-remove-put}
use tcpkali.Worker.Close.{
  CloseReason, ccr_clean, ccr_lifetime, ccr_timeout, ccr_remote, ccr_data, note_reason, count_out,
  forget, close_connection,
}

abbrev pub as_connecting : ConnType → ConnState → ℕ
as_connecting conn_outgoing connecting = 1
as_connecting conn_outgoing connected = 0
as_connecting conn_incoming state = 0
as_connecting conn_acceptor state = 0

abbrev pub as_outgoing : ConnType → ConnState → ℕ
as_outgoing conn_outgoing connecting = 0
as_outgoing conn_outgoing connected = 1
as_outgoing conn_incoming state = 0
as_outgoing conn_acceptor state = 0

abbrev pub as_incoming : ConnType → ConnState → ℕ
as_incoming conn_outgoing state = 0
as_incoming conn_incoming state = 1
as_incoming conn_acceptor state = 0

-- What no open connection is.
abbrev pub as_stray : ConnType → ConnState → ℕ
as_stray conn_outgoing state = 0
as_stray conn_incoming connecting = 1
as_stray conn_incoming connected = 0
as_stray conn_acceptor state = 1

abbrev pub number_of : (ConnType → ConnState → ℕ) → List Connection → ℕ
number_of f = total (λ c. f c.conn_type c.conn_state)

-- The three counters have 32 bits.
pub record Counted (outgoing_connecting outgoing_established incoming_established : ℕ)
    (xs : List Connection) : Type 0 where
  pub are_connecting : outgoing_connecting ≡ number_of as_connecting xs % 2 ^ 32
  pub are_outgoing : outgoing_established ≡ number_of as_outgoing xs % 2 ^ 32
  pub are_incoming : incoming_established ≡ number_of as_incoming xs % 2 ^ 32
  pub none_stray : number_of as_stray xs ≡ 0

abbrev pub CountedAs : Worker → List Connection → Type 0
CountedAs w xs = Counted w.outgoing_connecting w.outgoing_established w.incoming_established xs

abbrev pub IsCounted : Worker → Type 0
IsCounted w = CountedAs w w.open_conns

-- `ys` has one connection less than `xs`.
abbrev Less : ConnType → ConnState → List Connection → List Connection → Type 0
Less t s xs ys = (f : ConnType → ConnState → ℕ) → number_of f ys + f t s ≡ number_of f xs

count_out-CountedAs :
    (t : ConnType) (s : ConnState) (w : Worker) (xs ys : List Connection)
    → Less t s xs ys
    → CountedAs w xs
    → CountedAs (count_out t s w) ys
unfolding count_out
count_out-CountedAs t s w xs ys less h =
    let a = less as_connecting in
    let b = less as_outgoing in let c = less as_incoming in let d = less as_stray in ground arith

-- The connections and their counters.
abbrev pub Tallied : List Connection → Worker → Worker → Type 0
Tallied xs w v = CountedAs v xs × (v.open_conns ≡ w.open_conns)

note_reason-Tallied :
    (reason : CloseReason) (t : ConnType) (index : ℕ) (w : Worker) (xs : List Connection)
    → CountedAs w xs
    → Holds (Tallied xs w) (note_reason reason t index w)
unfolding note_reason
note_reason-Tallied ccr_clean t index w xs h = (h, refl)
note_reason-Tallied ccr_lifetime t index w xs h = (h, refl)
note_reason-Tallied ccr_timeout conn_outgoing index w xs h = (h, refl)
note_reason-Tallied ccr_timeout conn_incoming index w xs h = tt
note_reason-Tallied ccr_timeout conn_acceptor index w xs h = tt
note_reason-Tallied ccr_remote conn_outgoing index w xs h =
    if_lem (Holds (Tallied xs w)) (ltb index (2 ^ 15)) _ _ (h, refl) tt
note_reason-Tallied ccr_remote conn_incoming index w xs h = (h, refl)
note_reason-Tallied ccr_remote conn_acceptor index w xs h = (h, refl)
note_reason-Tallied ccr_data conn_outgoing index w xs h =
    if_lem (Holds (Tallied xs w)) (ltb index (2 ^ 15)) _ _ (h, refl) tt
note_reason-Tallied ccr_data conn_incoming index w xs h = (h, refl)
note_reason-Tallied ccr_data conn_acceptor index w xs h = (h, refl)

count_out-open_conns :
    (t : ConnType) (s : ConnState) (w : Worker) → (count_out t s w).open_conns ≡ w.open_conns
unfolding count_out
count_out-open_conns t s w = ground arith

-- A connection that is open, and counted as it is by now, is closed and counted no more.
pub close_connection-IsCounted :
    (w : Worker) (c d : Connection) (reason : CloseReason)
    → find c.sockfd w.open_conns ≡ some d
    → CountedAs w (put c w.open_conns)
    → Holds IsCounted (close_connection w c reason)
unfolding close_connection
close_connection-IsCounted w c d reason e h =
    Holds-bind (Tallied (put c w.open_conns) w) IsCounted _ _
      (note_reason-Tallied reason c.conn_type c.remote_index w (put c w.open_conns) h)
      λ v k.
        let less : Less c.conn_type c.conn_state (put c w.open_conns)
            (remove c.sockfd v.open_conns) =
          λ f.
            ap (λ xs. number_of f (remove c.sockfd xs) + f c.conn_type c.conn_state) k.1
            ∙ total-remove-put (λ x. f x.conn_type x.conn_state) c d w.open_conns e in
        subst (CountedAs (count_out c.conn_type c.conn_state (forget c v)))
          (sym (count_out-open_conns c.conn_type c.conn_state (forget c v)))
          (count_out-CountedAs c.conn_type c.conn_state (forget c v) (put c w.open_conns) _ less
            k.0)

-- Only the numbers of connections matter.
pub number_of-CountedAs :
    (w : Worker) (xs ys : List Connection)
    → ((f : ConnType → ConnState → ℕ) → number_of f ys ≡ number_of f xs)
    → CountedAs w xs
    → CountedAs w ys
number_of-CountedAs w xs ys same h =
    let a = same as_connecting in
    let b = same as_outgoing in let c = same as_incoming in let d = same as_stray in ground arith
