-- ===== src/Worker/Sending/Counted.antt =====
-- The write loop never divides by zero.
use tcpkali.Base.{ℕ, ◌-◌, ◌<◌, ◌≡◌, ◌⊎◌, true, List, [], ◌∷◌, none, ltb, ◌==◌, arith}
use tcpkali.Worker.Connections.{Connection, Params, Outcome, proceeds, exits, faults, ◌>>=◌}
use tcpkali.Worker.Outcomes.{if_lem}
use tcpkali.Worker.Sending.{
  WriteResult, wrote, interrupted, again, failed, Sending, WriteEnd, ended, reset, unfinished,
  broken, while_body, count_write, moved, after_write, write_loop, latency_record_outgoing_ts,
}

-- Where timestamps are kept, a message has a size.
abbrev pub Countable : Params → Connection → Type 0
Countable p c =
    (p.message_marker ≡ true) ⊎ (c.sent_timestamps ≡ none) ⊎ (0 < c.data_spec.single_message_size)

-- It does not fail, and gives one that can be counted.
abbrev Counts {ℓ} : {A : Type ℓ} → (A → Type 0) → Outcome A → Type 0
Counts P (proceeds a) = P a
Counts P (exits status) = ⊥
Counts P faults = ⊥

Counts-bind :
    {A B : Type 0} (P : A → Type 0) (Q : B → Type 0) (o : Outcome A) (f : A → Outcome B)
    → Counts P o
    → ((a : A) → P a → Counts Q (f a))
    → Counts Q (o >>= f)
Counts-bind P Q (proceeds a) f h k = k a h
Counts-bind P Q (exits status) f h k = absurd h
Counts-bind P Q faults f h k = absurd h

outgoing_ts-Countable :
    (p : Params) (now n : ℕ) (c : Connection)
    → Countable p c
    → Counts (Countable p) (latency_record_outgoing_ts p now n c)
unfolding latency_record_outgoing_ts
outgoing_ts-Countable p now n c h = ground arith

abbrev CountableIn : Params → Sending → Type 0
CountableIn p s = Countable p s.connection

after_write-Countable :
    (p : Params) (now n : ℕ) (s : Sending)
    → CountableIn p s
    → Counts (CountableIn p) (after_write p now n s)
unfolding after_write
after_write-Countable p now n s h =
    if_lem (Counts (CountableIn p)) (ltb s.available_header n) _ _
      (Counts-bind (Countable p) (CountableIn p)
        (latency_record_outgoing_ts p now (n - s.available_header) (count_write n s.connection))
        (λ d. proceeds (moved n s d))
        (outgoing_ts-Countable p now (n - s.available_header) (count_write n s.connection) h)
        λ d k. k)
      h

abbrev pub NotBroken : WriteEnd → Type 0
NotBroken (ended s) = Unit
NotBroken (reset s) = Unit
NotBroken (unfinished s) = Unit
NotBroken broken = ⊥

while_body-NotBroken :
    (p : Params) (more : Sending → WriteEnd) (o : Outcome Sending)
    → Counts (CountableIn p) o
    → ((s : Sending) → CountableIn p s → NotBroken (more s))
    → NotBroken (while_body more o)
while_body-NotBroken p more (proceeds s) h k =
    if_lem NotBroken (s.available_body == 0) (ended s) (more s) tt (k s h)
while_body-NotBroken p more (exits status) h k = absurd h
while_body-NotBroken p more faults h k = absurd h

pub write_loop-NotBroken :
    (p : Params) (now : ℕ) (rs : List WriteResult) (s : Sending)
    → Countable p s.connection
    → NotBroken (write_loop p now rs s)
unfolding write_loop
write_loop-NotBroken p now [] s h = tt
write_loop-NotBroken p now (wrote n ∷ rs) s h =
    while_body-NotBroken p (write_loop p now rs) _ (after_write-Countable p now _ s h)
      (write_loop-NotBroken p now rs)
write_loop-NotBroken p now (interrupted ∷ rs) s h =
    while_body-NotBroken p (write_loop p now rs) (proceeds s) h (write_loop-NotBroken p now rs)
write_loop-NotBroken p now (again ∷ rs) s h = tt
write_loop-NotBroken p now (failed ∷ rs) s h = tt
