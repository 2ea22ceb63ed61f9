-- ===== src/Worker/Closed.antt =====
-- What closing does to the connections, the traffic numbers and the lifetime timer, for one
-- connection and for several from the head of the list on.
use tcpkali.Base.{ℕ, ◌^◌, ◌≡◌, refl, ap, ◌∙◌, List, [], ◌∷◌, Option, some, ltb, ==_iff, arith}
use tcpkali.Worker.Traffic.{TrafficStats}
use tcpkali.Worker.Connections.{
  ConnType, conn_outgoing, conn_incoming, conn_acceptor, ConnState, Connection, Worker, find, put,
  remove,
}
use tcpkali.Worker.Outcomes.{Holds, Holds-bind, if_lem}
use tcpkali.Worker.Close.{
  CloseReason, ccr_clean, ccr_lifetime, ccr_timeout, ccr_remote, ccr_data, note_reason, count_out,
  connection_flush_stats, forget, close_connection,
}

pub find-first : (c : Connection) (cs : List Connection) → find c.sockfd (c ∷ cs) ≡ some c
unfolding find
find-first c cs = ground (arith, ==_iff c.sockfd c.sockfd)

pub remove-first : (c : Connection) (cs : List Connection) → remove c.sockfd (c ∷ cs) ≡ cs
unfolding remove
remove-first c cs = ground (arith, ==_iff c.sockfd c.sockfd)

pub put-first : (c : Connection) (cs : List Connection) → put c (c ∷ cs) ≡ c ∷ cs
unfolding put
put-first c cs = ground (arith, ==_iff c.sockfd c.sockfd)

pub remove_none : (fd : ℕ) → remove fd [] ≡ []
unfolding remove
remove_none fd = refl

pub put_none : (c : Connection) → put c [] ≡ []
unfolding put
put_none c = refl

-- The parts of a worker that the reason for closing does not touch.
pub record Rest : Type 0 where
  pub params : tcpkali.Worker.Connections.Params
  pub open_conns : List Connection
  pub lifetime_timer : Option ℕ
  pub worker_traffic_stats : TrafficStats

abbrev pub rest : Worker → Rest
rest w = record {
  params = w.params;
  open_conns = w.open_conns;
  lifetime_timer = w.lifetime_timer;
  worker_traffic_stats = w.worker_traffic_stats;
}

abbrev Kept : Worker → Worker → Type 0
Kept w v = rest v ≡ rest w

note_reason-Kept :
    (reason : CloseReason) (t : ConnType) (index : ℕ) (w : Worker)
    → Holds (Kept w) (note_reason reason t index w)
unfolding note_reason
note_reason-Kept ccr_clean t index w = refl
note_reason-Kept ccr_lifetime t index w = refl
note_reason-Kept ccr_timeout conn_outgoing index w = refl
note_reason-Kept ccr_timeout conn_incoming index w = tt
note_reason-Kept ccr_timeout conn_acceptor index w = tt
note_reason-Kept ccr_remote conn_outgoing index w =
    if_lem (Holds (Kept w)) (ltb index (2 ^ 15)) _ _ refl tt
note_reason-Kept ccr_remote conn_incoming index w = refl
note_reason-Kept ccr_remote conn_acceptor index w = refl
note_reason-Kept ccr_data conn_outgoing index w =
    if_lem (Holds (Kept w)) (ltb index (2 ^ 15)) _ _ refl tt
note_reason-Kept ccr_data conn_incoming index w = refl
note_reason-Kept ccr_data conn_acceptor index w = refl

count_out-rest : (t : ConnType) (s : ConnState) (w : Worker) → rest (count_out t s w) ≡ rest w
unfolding count_out
count_out-rest t s w = ground arith

abbrev pub closed_rest : Connection → Rest → Rest
closed_rest c r = record {
  params = r.params;
  open_conns = remove c.sockfd r.open_conns;
  lifetime_timer = r.lifetime_timer;
  worker_traffic_stats = connection_flush_stats c r.worker_traffic_stats;
}

pub close_connection-rest :
    (w : Worker) (c : Connection) (reason : CloseReason)
    → Holds (λ v. rest v ≡ closed_rest c (rest w)) (close_connection w c reason)
unfolding close_connection
close_connection-rest w c reason =
    Holds-bind (Kept w) (λ v. rest v ≡ closed_rest c (rest w)) _ _
      (note_reason-Kept reason c.conn_type c.remote_index w)
      λ v k. count_out-rest c.conn_type c.conn_state (forget c v) ∙ ap (closed_rest c) k
