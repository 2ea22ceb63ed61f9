-- ===== src/Worker/Lifetimes.antt =====
-- The end of life of connections: `expire_channel_lives` closes exactly those that are due, and the
-- timer is always set in time for the next.
pub mod Orders
pub mod Timed
pub mod Runs
use tcpkali.Base.{
  ℕ, ◌+◌, ◌-◌, ◌≤◌, ◌<◌, ◌≡◌, refl, sym, ap, subst, ◌∙◌, ◌⊎◌, inl, inr, Bool-cases, Bool, true,
  false, List, [], ◌∷◌, ◌++◌, All, All-append, All-mono, Option, none, some, ltb, leb, ◌==◌,
  if◌then◌else◌, arith,
}
use tcpkali.Worker.Connections.{Connection, Worker, find, put, remove, Outcome, proceeds, ◌>>=◌}
use tcpkali.Worker.Outcomes.{Holds}
use tcpkali.Worker.Close.{
  ccr_clean, close_connection, lifetime_limited, expire_each, expire_channel_lives,
  setup_channel_lifetime_timer,
}
use tcpkali.Worker.Closed.{rest, closed_rest, close_connection-rest, remove-first}
use tcpkali.Worker.Exit.{clean-proceeds}

-- No connection ends before one in front of it.
abbrev pub IsOrdered : List Connection → Type 0
IsOrdered [] = Unit
IsOrdered (c ∷ cs) = All (λ d. c.channel_eol_point ≤ d.channel_eol_point) cs × IsOrdered cs

-- The connections that end after `t`.
abbrev pub later : ℕ → List Connection → List Connection
later t [] = []
later t (c ∷ cs) = let more = later t cs in if leb c.channel_eol_point t then more else c ∷ more

-- The timer for the first of them.
abbrev pub next_timer : ℕ → ℕ → Option ℕ → List Connection → Option ℕ
next_timer now t old [] = old
next_timer now t old (c ∷ cs) = some (now + (c.channel_eol_point - t))

later-All : (t : ℕ) (cs : List Connection) → All (λ c. t < c.channel_eol_point) cs → later t cs ≡ cs
later-All t [] h = refl
later-All t (c ∷ cs) h = ground (arith, later-All t cs h.1)

expire_each-later :
    (now t : ℕ) (old : Option ℕ) (cs : List Connection) (w : Worker)
    → w.open_conns ≡ cs
    → w.lifetime_timer ≡ old
    → now - w.params.epoch ≡ t
    → IsOrdered cs
    → (v : Worker) × (expire_each now cs w ≡ proceeds v)
      × (v.open_conns ≡ later t cs)
      × (v.lifetime_timer ≡ next_timer now t old (later t cs))
      × (v.params ≡ w.params)
unfolding expire_each
expire_each-later now t old [] w e l p o = (w, refl, e, l, refl)
expire_each-later now t old (c ∷ cs) w e l p o =
    elim (Bool-cases (leb c.channel_eol_point (now - w.params.epoch))) [
      | inl h ↦
          let (u, e1) = clean-proceeds w c in
          let k =
            subst (Holds (λ x. rest x ≡ closed_rest c (rest w))) e1
              (close_connection-rest w c ccr_clean) in
          let (v, e2, opens, timer, same) =
            expire_each-later now t old cs u
              (ap (λ r. r.open_conns) k ∙ ap (remove c.sockfd) e ∙ remove-first c cs)
              (ap (λ r. r.lifetime_timer) k ∙ l) (ap (λ r. now - r.params.epoch) k ∙ p) o.1 in
          let due : leb c.channel_eol_point t ≡ true = ap (leb c.channel_eol_point) (sym p) ∙ h in
          (
            v,
            rw h (ap (λ x. x >>= expire_each now cs) e1 ∙ e2),
            rw due opens,
            rw due timer,
            same ∙ ap (λ r. r.params) k,
          )
      | inr h ↦
          let due : leb c.channel_eol_point t ≡ false = ap (leb c.channel_eol_point) (sym p) ∙ h in
          let all : later t cs ≡ cs = later-All t cs (
            All-mono (λ d. c.channel_eol_point ≤ d.channel_eol_point) (λ d. t < d.channel_eol_point)
              cs (λ d below. ground arith) o.0) in
          (
            setup_channel_lifetime_timer now (c.channel_eol_point - (now - w.params.epoch)) w,
            rw h refl,
            rw due (e ∙ ap (◌∷◌ c) (sym all)),
            rw due (ap (λ k. some (now + (c.channel_eol_point - k))) p),
            refl,
          )
    ]

-- Where connections have a lifetime and stand in the order of their ends, the timer closes exactly
-- those that have ended at `now` and is set again for the first one of the rest.
pub expire_channel_lives-later :
    (now : ℕ) (w : Worker)
    → lifetime_limited w.params.channel_lifetime ≡ true
    → IsOrdered w.open_conns
    → (v : Worker) × (expire_channel_lives now w ≡ proceeds v)
      × (v.open_conns ≡ later (now - w.params.epoch) w.open_conns)
      × (v.lifetime_timer
          ≡ next_timer now (now - w.params.epoch) none (later (now - w.params.epoch) w.open_conns))
      × (v.params ≡ w.params)
unfolding expire_channel_lives
expire_channel_lives-later now w limited o = rw limited (
    expire_each-later now (now - w.params.epoch) none w.open_conns
      (record w { lifetime_timer = none }) refl refl refl o)
