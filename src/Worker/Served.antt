-- ===== src/Worker/Served.antt =====
-- What every callback on a connection keeps, if closing the connection and putting it back do.
use tcpkali.Base.{
  ℕ, ◌≡◌, refl, ap, ◌∙◌, Bool, false, Bytes, List, [], ◌∷◌, Option, none, some, ◌==◌, ==_iff, arith,
}
use tcpkali.Transport.Payload.{total_size}
use tcpkali.Engine.Channel.{Events}
use tcpkali.Worker.Connections.{
  ConnType, conn_outgoing, conn_incoming, conn_acceptor, ConnState, connected, connecting,
  Connection, Worker, find, Outcome, proceeds, exits, faults, ◌>>=◌,
}
use tcpkali.Worker.Outcomes.{Holds, Holds-bind, if_lem}
use tcpkali.Worker.Close.{CloseReason, ccr_clean, ccr_timeout, ccr_remote, close_connection}
use tcpkali.Worker.Open.{no_lifetime}
use tcpkali.Worker.Sending.{Sent, goes_on, closes, waits, breaks, WriteEnv, process_write}
use tcpkali.Worker.Receiving.{ReadResult, Fate, keeps, dies, quits, broken}
use tcpkali.Worker.Identity.{
  Same, SentSame, FateSame, process_write-Same, process_read-Same, passive_read-Same,
}
use tcpkali.Worker.Events

-- `P` is to be kept; `Q w c` is `P` of a worker whose callback is at work on `c`.
pub record Keeps (P : Worker → Type 0) (Q : Worker → Connection → Type 0) : Type 0 where
  pub found : (w : Worker) (c : Connection) → P w → find c.sockfd w.open_conns ≡ some c → Q w c
  pub same : (w : Worker) (c d : Connection) → Same c d → Q w c → Q w d
  pub stored : (w : Worker) (c : Connection) → Q w c → P (Events.store c w)
  pub closed :
      (w : Worker) (c : Connection) (reason : CloseReason)
      → Q w c
      → Holds P (close_connection w c reason)
  pub established :
      (w : Worker) (c : Connection)
      → P w
      → find c.sockfd w.open_conns ≡ some c
      → c.conn_state ≡ connecting
      → Q (Events.count_established w) (record c { conn_state = connected })

found_fd : (fd : ℕ) (c : Connection) (xs : List Connection) → find fd xs ≡ some c → c.sockfd ≡ fd
unfolding find
found_fd fd c [] e = cc
found_fd fd c (x ∷ xs) e = ground (arith, found_fd fd c xs, ==_iff x.sockfd fd)

ready_connection :
    (c : Connection) → Same (record c { conn_state = connected }) (Events.established_connection c)
ready_connection c =
    if_lem (Same (record c { conn_state = connected })) (total_size c.data_spec == 0) _ _ refl refl

module _ (P : Worker → Type 0) (Q : Worker → Connection → Type 0) (k : Keeps P Q) where
  -- Of a worker with the bytes that it sent.
  abbrev First : Worker × Bytes → Type 0
  First r = P r.0

  with_bytes :
      (s : Bytes) (o : Outcome Worker) → Holds P o → Holds First (o >>= λ w. proceeds (w, s))
  with_bytes s o h = Holds-bind P First o _ h λ w p. p

  after_sent-keeps :
      (w : Worker) (c : Connection) (r : Sent)
      → SentSame c r
      → Q w c
      → Holds First (Events.after_sent w r)
  after_sent-keeps w c (goes_on d s) e h = k.stored w d (k.same w c d e h)
  after_sent-keeps w c (waits d s) e h = k.stored w d (k.same w c d e h)
  after_sent-keeps w c (closes d s) e h =
      with_bytes s (close_connection w d ccr_remote) (k.closed w d ccr_remote (k.same w c d e h))
  after_sent-keeps w c breaks e h = tt

  then_write-keeps :
      (w : Worker) (c : Connection) (write : Bool) (env : WriteEnv) (r : Fate)
      → FateSame c r
      → Q w c
      → Holds First (Events.then_write w write env r)
  then_write-keeps w c write env (keeps d) e h =
      let q = k.same w c d e h in
      if_lem (Holds First) write _ _
        (after_sent-keeps w d (process_write w.params env d) (process_write-Same w.params env d) q)
        (k.stored w d q)
  then_write-keeps w c write env (dies d reason) e h =
      with_bytes [] (close_connection w d reason) (k.closed w d reason (k.same w c d e h))
  then_write-keeps w c write env (quits status) e h = tt
  then_write-keeps w c write env broken e h = tt

  serve-keeps :
      (w : Worker) (c : Connection) (revents : Events) (io : Events.Io)
      → Q w c
      → Holds First (Events.serve w c revents io)
  unfolding Events.serve
  serve-keeps w c revents io h =
      then_write-keeps w c revents.write io.write_env _
        (if_lem (FateSame c) revents.read _ (keeps c)
          (process_read-Same w.params io.read_allowed io.read_result c) refl)
        h

  connection_in-keeps :
      (s : ConnState) (w : Worker) (c : Connection) (revents : Events) (io : Events.Io)
      → P w
      → find c.sockfd w.open_conns ≡ some c
      → c.conn_state ≡ s
      → Holds First (Events.connection_in s w c revents io)
  connection_in-keeps connected w c revents io h e s = serve-keeps w c revents io (k.found w c h e)
  connection_in-keeps connecting w c revents io h e s =
      if_lem (Holds First) (no_lifetime w.params.channel_lifetime) _ _
        (with_bytes [] (close_connection w c ccr_clean) (k.closed w c ccr_clean (k.found w c h e)))
        (serve-keeps (Events.count_established w) (Events.established_connection c) _ io (
          k.same (Events.count_established w) (record c { conn_state = connected }) _
            (ready_connection c) (k.established w c h e s)))

  conn_timer_in-keeps :
      (s : ConnState) (t : ConnType) (w : Worker) (c : Connection)
      → Q w c
      → Holds P (Events.conn_timer_in s t w c)
  conn_timer_in-keeps connecting t w c h =
      k.closed w (record c { timer_started = false }) ccr_timeout
        (k.same w c (record c { timer_started = false }) refl h)
  conn_timer_in-keeps connected conn_outgoing w c h =
      k.stored w (Events.unblocked c) (k.same w c (Events.unblocked c) refl h)
  conn_timer_in-keeps connected conn_incoming w c h =
      k.stored w (Events.unblocked c) (k.same w c (Events.unblocked c) refl h)
  conn_timer_in-keeps connected conn_acceptor w c h = tt

  after_passive-keeps :
      (w : Worker) (c : Connection) (r : Fate)
      → FateSame c r
      → Q w c
      → Holds P (Events.after_passive w r)
  after_passive-keeps w c (keeps d) e h = k.stored w d (k.same w c d e h)
  after_passive-keeps w c (dies d reason) e h = k.closed w d reason (k.same w c d e h)
  after_passive-keeps w c (quits status) e h = tt
  after_passive-keeps w c broken e h = tt

  on_connection-keeps :
      (w : Worker) (fd : ℕ) (o : Option Connection) (f : Connection → Outcome Worker)
      → find fd w.open_conns ≡ o
      → P w
      → ((c : Connection) → find c.sockfd w.open_conns ≡ some c → Holds P (f c))
      → Holds P (Events.on_connection w o f)
  on_connection-keeps w fd none f e h g = h
  on_connection-keeps w fd (some c) f e h g =
      g c (ap (λ n. find n w.open_conns) (found_fd fd c w.open_conns e) ∙ e)

  first-keeps : (o : Outcome (Worker × Bytes)) → Holds First o → Holds P (Events.first o)
  first-keeps (proceeds (w, s)) h = h
  first-keeps (exits status) h = tt
  first-keeps faults h = tt

  -- The events of a connection.
  pub timer-keeps :
      (accept_of : Bytes → Bytes) (w : Worker) (fd : ℕ)
      → P w
      → Holds P (Events.step accept_of w (Events.connection_timer fd))
  unfolding Events.step Events.conn_timer_cb
  timer-keeps accept_of w fd h =
      on_connection-keeps w fd _ _ refl h
        λ c e. conn_timer_in-keeps c.conn_state c.conn_type w c (k.found w c h e)

  pub ready-keeps :
      (accept_of : Bytes → Bytes) (w : Worker) (fd : ℕ) (revents : Events) (io : Events.Io)
      → P w
      → Holds P (Events.step accept_of w (Events.ready fd revents io))
  unfolding Events.step Events.connection_cb
  ready-keeps accept_of w fd revents io h =
      on_connection-keeps w fd _ _ refl h
        λ c e. first-keeps _ (connection_in-keeps c.conn_state w c revents io h e refl)

  pub passive-keeps :
      (accept_of : Bytes → Bytes) (w : Worker) (fd : ℕ) (r : ReadResult) (s : Bytes)
      (written : Bool)
      → P w
      → Holds P (Events.step accept_of w (Events.passive_ready fd r s written))
  unfolding Events.step Events.passive_websocket_cb
  passive-keeps accept_of w fd r s written h =
      on_connection-keeps w fd _ _ refl h λ c e.
        after_passive-keeps w c _ (passive_read-Same accept_of r s written c) (k.found w c h e)
