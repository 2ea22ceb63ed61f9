-- ===== src/Worker/Lifetimes/Timed.antt =====
-- The timer for the ends of connections over runs of the event loop.
use tcpkali.Base.{
  ℕ, ◌+◌, ◌-◌, ◌≤◌, ◌<◌, ◌≡◌, refl, ap, ◌∙◌, ◌⊎◌, inl, inr, true, ◌&&◌, List, [], ◌∷◌, ◌++◌, All,
  All-append, All-mono, Option, none, some, if◌then◌else◌, arith,
}
use tcpkali.Worker.Events.{recompute_all}
use tcpkali.Worker.Connections.{RateBase, Connection, Params, find, put, remove}
use tcpkali.Worker.Close.{lifetime_limited, reported_all}
use tcpkali.Worker.Open.{eol_point, first_timeout, is_empty}
use tcpkali.Worker.Closed.{Rest, remove_none, put_none, closed_rest}
use tcpkali.Worker.Opened.{opened_rest}
use tcpkali.Worker.Lifetimes.{IsOrdered, next_timer}
use tcpkali.Worker.Lifetimes.Orders.{
  All-find, All-put, All-remove, IsOrdered-put, IsOrdered-remove, IsOrdered-append,
}

-- The timer is due, at the latest, when the connection ends.
abbrev pub DueFor : ℕ → ℕ → Connection → Type 0
DueFor epoch due c = due ≤ epoch + c.channel_eol_point

abbrev pub EndsBy : Params → ℕ → Connection → Type 0
EndsBy p clock c = c.channel_eol_point ≤ eol_point p.channel_lifetime clock p.epoch

-- At the time `clock`.
pub record IsTimed (clock : ℕ) (r : Rest) : Type 0 where
  pub begun : r.params.epoch ≤ clock
  pub ordered : IsOrdered r.open_conns
  pub bounded : All (EndsBy r.params clock) r.open_conns
  pub armed :
      lifetime_limited r.params.channel_lifetime ≡ true
      → (r.open_conns ≡ [])
        ⊎ ((due : ℕ) × (r.lifetime_timer ≡ some due) × All (DueFor r.params.epoch due) r.open_conns)

end_mono :
    (l : Option ℕ) (clock now epoch : ℕ)
    → clock ≤ now
    → eol_point l clock epoch ≤ eol_point l now epoch
end_mono none clock now epoch h = omega arith
end_mono (some n) clock now epoch h = ground arith

-- Time passes.
pub later-IsTimed : (clock now : ℕ) (r : Rest) → clock ≤ now → IsTimed clock r → IsTimed now r
later-IsTimed clock now r h t = record {
  begun = omega (arith, t.begun);
  ordered = t.ordered;
  bounded =
      All-mono (EndsBy r.params clock) (EndsBy r.params now) r.open_conns
        (λ c b. omega (arith, b, end_mono r.params.channel_lifetime clock now r.params.epoch h))
        t.bounded;
  armed = t.armed;
}

pub removed-IsTimed :
    (clock : ℕ) (r : Rest) (c : Connection) → IsTimed clock r → IsTimed clock (closed_rest c r)
removed-IsTimed clock r c t = record {
  begun = t.begun;
  ordered = IsOrdered-remove c.sockfd r.open_conns t.ordered;
  bounded = All-remove (EndsBy r.params clock) c.sockfd r.open_conns t.bounded;
  armed = λ limited. elim (t.armed limited) [
    | inl e ↦ inl (ap (remove c.sockfd) e ∙ remove_none c.sockfd)
    | inr (due, e, h) ↦ inr (due, e, All-remove (DueFor r.params.epoch due) c.sockfd r.open_conns h)
  ];
}

pub put-IsTimed :
    (clock : ℕ) (r : Rest) (d c : Connection)
    → find d.sockfd r.open_conns ≡ some c
    → d.channel_eol_point ≡ c.channel_eol_point
    → IsTimed clock r
    → IsTimed clock (record r { open_conns = put d r.open_conns })
put-IsTimed clock r d c e same t = record {
  begun = t.begun;
  ordered = IsOrdered-put d c r.open_conns e same t.ordered;
  bounded =
      All-put (EndsBy r.params clock) d r.open_conns
        (omega (arith, All-find (EndsBy r.params clock) d.sockfd c r.open_conns e t.bounded))
        t.bounded;
  armed = λ limited. elim (t.armed limited) [
    | inl none_open ↦ inl (ap (put d) none_open ∙ put_none d)
    | inr (due, set, h) ↦ inr (
      due,
      set,
      All-put (DueFor r.params.epoch due) d r.open_conns
          (omega (arith, All-find (DueFor r.params.epoch due) d.sockfd c r.open_conns e h)) h,
    )
  ];
}

limited_end :
    (l : Option ℕ) (now epoch : ℕ)
    → lifetime_limited l ≡ true
    → eol_point l now epoch ≡ now - epoch + first_timeout l
limited_end none now epoch h = cc
limited_end (some n) now epoch h = ground arith

abbrev pub Armed : ℕ → Option ℕ → List Connection → Type 0
Armed epoch timer xs = (xs ≡ []) ⊎ ((due : ℕ) × (timer ≡ some due) × All (DueFor epoch due) xs)

opened-Armed :
    (now epoch : ℕ) (l timer : Option ℕ) (c : Connection) (xs : List Connection)
    → epoch ≤ now
    → lifetime_limited l ≡ true
    → c.channel_eol_point ≡ eol_point l now epoch
    → All (λ x. x.channel_eol_point ≤ eol_point l now epoch) xs
    → Armed epoch timer xs
    → Armed epoch
        (if lifetime_limited l && is_empty xs then some (now + first_timeout l) else timer)
        (xs ++ c ∷ [])
opened-Armed now epoch l timer c [] h limited e bounds armed = inr (
  now + first_timeout l,
  rw limited refl,
  (omega (arith, e, limited_end l now epoch limited), tt),
)
opened-Armed now epoch l timer c (x ∷ xs) h limited e bounds (inl none_open) = cc
opened-Armed now epoch l timer c (x ∷ xs) h limited e bounds (inr (due, set, all)) = inr (
  due,
  rw limited set,
  All-append (DueFor epoch due) (x ∷ xs) (c ∷ []) all (omega (arith, all.0, bounds.0, e), tt),
)

-- A connection opened at `now` ends last.
pub opened-IsTimed :
    (now : ℕ) (r : Rest) (c : Connection)
    → c.channel_eol_point ≡ eol_point r.params.channel_lifetime now r.params.epoch
    → IsTimed now r
    → IsTimed now (opened_rest now c r)
opened-IsTimed now r c e t = record {
  begun = t.begun;
  ordered =
      IsOrdered-append c r.open_conns
        (All-mono (EndsBy r.params now) (λ x. x.channel_eol_point ≤ c.channel_eol_point)
          r.open_conns (λ x b. omega (arith, b, e)) t.bounded)
        t.ordered;
  bounded = All-append (EndsBy r.params now) r.open_conns (c ∷ []) t.bounded (omega (arith, e), tt);
  armed = λ limited.
      opened-Armed now r.params.epoch r.params.channel_lifetime r.lifetime_timer c r.open_conns
        t.begun limited e t.bounded (t.armed limited);
}

-- What the timer itself leaves.
pub expired-Armed :
    (now epoch : ℕ) (old : Option ℕ) (xs : List Connection)
    → epoch ≤ now
    → IsOrdered xs
    → All (λ x. now - epoch < x.channel_eol_point) xs
    → Armed epoch (next_timer now (now - epoch) old xs) xs
expired-Armed now epoch old [] h o after = inl refl
expired-Armed now epoch old (x ∷ xs) h o after = inr (
  now + (x.channel_eol_point - (now - epoch)),
  refl,
  (
    omega (arith, after.0),
    All-mono (λ y. x.channel_eol_point ≤ y.channel_eol_point)
        (DueFor epoch (now + (x.channel_eol_point - (now - epoch)))) xs
        (λ y b. omega (arith, after.0, b)) o.0,
  ),
)

pub reported-All :
    (P : Connection → Type 0) (xs : List Connection)
    → ((c d : Connection) → d.channel_eol_point ≡ c.channel_eol_point → P c → P d)
    → All P xs
    → All P (reported_all xs)
reported-All P [] f h = tt
reported-All P (x ∷ xs) f h = (f x _ refl h.0, reported-All P xs f h.1)

pub reported-IsOrdered : (xs : List Connection) → IsOrdered xs → IsOrdered (reported_all xs)
reported-IsOrdered [] o = tt
reported-IsOrdered (x ∷ xs) o = (
  reported-All (λ d. x.channel_eol_point ≤ d.channel_eol_point) xs (λ c d e h. omega arith) o.0,
  reported-IsOrdered xs o.1,
)

pub recomputed-All :
    (P : Connection → Type 0) (rate : RateBase) (xs : List Connection)
    → ((c d : Connection) → d.channel_eol_point ≡ c.channel_eol_point → P c → P d)
    → All P xs
    → All P (recompute_all rate xs)
recomputed-All P rate [] f h = tt
recomputed-All P rate (x ∷ xs) f h = (f x _ refl h.0, recomputed-All P rate xs f h.1)

pub recomputed-IsOrdered :
    (rate : RateBase) (xs : List Connection) → IsOrdered xs → IsOrdered (recompute_all rate xs)
recomputed-IsOrdered rate [] o = tt
recomputed-IsOrdered rate (x ∷ xs) o = (
  recomputed-All (λ d. x.channel_eol_point ≤ d.channel_eol_point) rate xs (λ c d e h. omega arith)
      o.0,
  recomputed-IsOrdered rate xs o.1,
)
