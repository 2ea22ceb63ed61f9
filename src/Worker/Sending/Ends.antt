-- ===== src/Worker/Sending/Ends.antt =====
-- How the write loop ends, and what it does behind a write that ends in the header.
use tcpkali.Base.{
  ℕ, ◌-◌, ◌≤◌, ◌<◌, ◌≡◌, refl, ap, ◌∙◌, ◌⊎◌, inl, inr, Bool, true, false, Bool-cases, List, [], ◌∷◌,
  ◌++◌, append_assoc, length, All, min, ltb, ◌==◌, if◌then◌else◌, arith,
}
use tcpkali.Worker.Connections.{Connection, Params, Outcome, proceeds, exits, faults}
use tcpkali.Worker.Outcomes.{Holds, Holds-bind, Holds-mono, if_lem, EndHolds, EndHolds-while_body}
use tcpkali.Worker.Sending.{
  WriteResult, wrote, interrupted, again, failed, Sending, WriteEnd, ended, reset, unfinished,
  broken, while_body, offered, count_write, taken, moved, not_moved, after_write, write_loop,
  latency_record_outgoing_ts,
}
use tcpkali.Worker.Sending.Stream.{GetsPast, offered_past}

-- A call that is not interrupted, and takes something if it takes anything.
abbrev pub Progresses : WriteResult → Type 0
Progresses (wrote n) = 0 < n
Progresses interrupted = ⊥
Progresses again = Unit
Progresses failed = Unit

abbrev pub HasEnded : WriteEnd → Type 0
HasEnded (ended s) = Unit
HasEnded (reset s) = Unit
HasEnded (unfinished s) = ⊥
HasEnded broken = Unit

-- Less of the body is left, and no header; or there was no body.
abbrev Shorter : Sending → Sending → Type 0
Shorter s t =
    (t.available_body ≡ 0)
    ⊎ ((t.available_header ≡ 0)
        × (t.available_body < s.available_body)
        × (t.connection.send_limit ≡ s.connection.send_limit))

outgoing_ts-limit :
    (p : Params) (now n : ℕ) (c : Connection)
    → Holds (λ d. d.send_limit ≡ c.send_limit) (latency_record_outgoing_ts p now n c)
unfolding latency_record_outgoing_ts
outgoing_ts-limit p now n c = ground arith

after_write-Shorter :
    (p : Params) (now n : ℕ) (s : Sending)
    → 0 < s.connection.send_limit.minimal_move_size
    → s.available_header < n
    → Holds (Shorter s) (after_write p now (min n (offered p s)) s)
unfolding after_write
after_write-Shorter p now n s paced over =
    let k = min n (offered p s) in
    elim (Bool-cases (ltb s.available_header k)) [
      | inl past ↦ rw past (
          Holds-bind (λ d. d.send_limit ≡ s.connection.send_limit) (Shorter s)
            (latency_record_outgoing_ts p now (k - s.available_header) (count_write k s.connection))
            (λ d. proceeds (moved k s d))
            (outgoing_ts-limit p now (k - s.available_header) (count_write k s.connection))
            λ d e. less d e (ground arith))
      | inr stays ↦
          rw stays (inl (none_left s.available_body (offered_past p s (inr paced)) (ground arith)))
    ]
  where
    less :
        (d : Connection)
        → d.send_limit ≡ s.connection.send_limit
        → s.available_header < min n (offered p s)
        → Shorter s (moved (min n (offered p s)) s d)
    less d e past = elim (zero_or_more s.available_body) [
      | inl z ↦ inl (omega arith)
      | inr more ↦ inr (refl, omega arith, e)
    ]
      where
        zero_or_more : (m : ℕ) → (m ≡ 0) ⊎ (0 < m)
        zero_or_more m = ground arith

    none_left :
        (body : ℕ)
        → (0 < body → s.available_header < offered p s)
        → min n (offered p s) ≤ s.available_header
        → body ≡ 0
    none_left body h small = grind arith

while_body-HasEnded :
    (s : Sending) (more : Sending → WriteEnd) (o : Outcome Sending)
    → Holds (Shorter s) o
    → ((t : Sending)
        → t.available_header ≡ 0
        → 0 < t.available_body
        → t.available_body < s.available_body
        → t.connection.send_limit ≡ s.connection.send_limit
        → HasEnded (more t))
    → HasEnded (while_body more o)
while_body-HasEnded s more (proceeds t) (inl none_left) k = ground arith
while_body-HasEnded s more (proceeds t) (inr (h, b, e)) k =
    elim (Bool-cases (t.available_body == 0)) [
      | inl none_left ↦ rw none_left tt
      | inr some_left ↦ rw some_left (k t h (ground arith) b e)
    ]
while_body-HasEnded s more (exits status) h k = tt
while_body-HasEnded s more faults h k = tt

-- Where no call is interrupted, each takes a byte at least if it does not fail, and the first takes
-- more than the header, the loop ends after at most as many calls as bytes of the body are left, or
-- after one.
pub write_loop-HasEnded :
    (p : Params) (now : ℕ) (rs : List WriteResult) (s : Sending)
    → 0 < s.connection.send_limit.minimal_move_size
    → All Progresses rs
    → (s.available_header ≡ 0) ⊎ GetsPast s.available_header rs
    → s.available_body ≤ length rs
    → 0 < length rs
    → HasEnded (write_loop p now rs s)
unfolding write_loop
write_loop-HasEnded p now [] s paced pos over enough some = elim some [ ]
write_loop-HasEnded p now (wrote n ∷ rs) s paced (more, pos) over enough some =
    while_body-HasEnded s (write_loop p now rs) _
      (after_write-Shorter p now n s paced (first n rs s.available_header more over))
      λ t h pos_body b e.
        write_loop-HasEnded p now rs t (omega (arith, ap (λ l. l.minimal_move_size) e, paced)) pos
          (inl h) (omega (arith, b, enough)) (omega (arith, b, pos_body, enough))
  where
    first :
        (n : ℕ) (rs : List WriteResult) (h : ℕ)
        → 0 < n
        → (h ≡ 0) ⊎ GetsPast h (wrote n ∷ rs)
        → h < n
    first n rs h m (inl e) = omega arith
    first n rs h m (inr e) = e
write_loop-HasEnded p now (interrupted ∷ rs) s paced (never, pos) over enough some = absurd never
write_loop-HasEnded p now (again ∷ rs) s paced pos over enough some = tt
write_loop-HasEnded p now (failed ∷ rs) s paced pos over enough some = tt

sent-after_write :
    (p : Params) (now n : ℕ) (s : Sending)
    → Holds (λ t. t.sent ≡ s.sent ++ taken n s) (after_write p now n s)
unfolding after_write
sent-after_write p now n s =
    if_lem (Holds (λ t. t.sent ≡ s.sent ++ taken n s)) (ltb s.available_header n) _ _
      (Holds-bind (λ d. Unit {0}) (λ t. t.sent ≡ s.sent ++ taken n s)
        (latency_record_outgoing_ts p now (n - s.available_header) (count_write n s.connection))
        (λ d. proceeds (moved n s d)) (whatever _) λ d h. refl)
      refl
  where
    whatever : (o : Outcome Connection) → Holds (λ d. Unit {0}) o
    whatever (proceeds d) = tt
    whatever (exits status) = tt
    whatever faults = tt

not_past :
    (p : Params) (now n : ℕ) (s : Sending)
    → n ≤ s.available_header
    → after_write p now n s ≡ proceeds (not_moved n s (count_write n s.connection))
unfolding after_write
not_past p now n s h = ground arith

-- A write that takes no more than the header of a chunk with a body is followed by one from the same
-- place: the bytes that the first took go out again.
pub write_loop_repeats :
    (p : Params) (now n m : ℕ) (s : Sending)
    → min n (offered p s) ≤ s.available_header
    → 0 < s.available_body
    → EndHolds
        (λ t. t.sent ≡ s.sent ++ (taken (min n (offered p s)) s ++ taken (min m (offered p s)) s))
        (write_loop p now (wrote n ∷ wrote m ∷ []) s)
unfolding write_loop
write_loop_repeats p now n m s split more =
    let k = min n (offered p s) in
    let t = not_moved k s (count_write k s.connection) in
    let Twice : Sending → Type 0 =
      λ u. u.sent ≡ s.sent ++ (taken k s ++ taken (min m (offered p s)) s) in
    rw (not_past p now k s split) (
      if_else (EndHolds Twice) (s.available_body == 0) _ _ (ground arith) (
        EndHolds-while_body Twice (λ u. unfinished u) (after_write p now (min m (offered p t)) t)
          (Holds-mono (λ u. u.sent ≡ (s.sent ++ taken k s) ++ taken (min m (offered p s)) s) Twice _
            (sent-after_write p now (min m (offered p t)) t)
            λ u e. e ∙ append_assoc s.sent (taken k s) (taken (min m (offered p s)) s))
          λ u h. h))
  where
    if_else :
        (P : WriteEnd → Type 0) (b : Bool) (x y : WriteEnd)
        → b ≡ false
        → P y
        → P (if b then x else y)
    if_else P true x y e h = cc
    if_else P false x y e h = h
