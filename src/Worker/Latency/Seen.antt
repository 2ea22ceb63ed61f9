-- ===== src/Worker/Latency/Seen.antt =====
-- What can be told from outside of exchanges: the messages sent and the markers found.
use tcpkali.Base.{
  ℕ, zero, suc, ◌+◌, ◌-◌, ◌*◌, ◌/◌, ◌%◌, ◌^◌, ◌≤◌, ◌<◌, ◌≡◌, refl, sym, ap, ap₂, ◌∙◌, ◌⊎◌, inl, inr,
  Bool-cases, List, [], ◌∷◌, ◌++◌, map, length, drop, replicate, leb, ◌==◌, arith,
}
use native.Mathlib.Nat.{div-add-mod, add-mul-div_left, add-mul-mod_self_left}
use tcpkali.Worker.Latency.{Sample, Latency, skip_markers, Exchange, sends, arrives}
use tcpkali.Worker.Latency.Fifo.{AtRest}
use tcpkali.Worker.Latency.Matched.{sent_times, received_times}

-- So many messages have begun when `bytes` of them are sent.
abbrev pub begun : ℕ → ℕ → ℕ
begun msgsize bytes = (bytes + (msgsize - 1)) / msgsize

-- What was sent and found so far: the bytes, when each message began, and when each marker was
-- found.
pub record Seen (C : Type 0) : Type 0 where
  pub total : ℕ
  pub messages : List ℕ
  pub markers : List ℕ
  pub ctx : C

-- Within these sizes the counts of a callback do not overflow.
abbrev pub IsShort : Exchange → Type 0
IsShort (sends now wrote) = wrote < 2 ^ 50
IsShort (arrives now s) = length s < 2 ^ 32

-- More markers were found than messages sent and markers to skip, or 655360 messages had no
-- answer.
abbrev pub GivesUp : {C : Type 0} → ℕ → Seen C → Type 0
GivesUp skip s =
    (length s.messages + skip < length s.markers)
    ⊎ (655360 + (length s.markers - skip) ≤ length s.messages)

pub record Follows {C : Type 0} (msgsize skip : ℕ) (s : Seen C) (l : Latency C) : Type 0 where
  pub unanswered : List ℕ
  pub ring : AtRest l.sent_timestamps unanswered
  pub credit_is : l.message_bytes_credit ≡ (s.total + (msgsize - 1)) % msgsize
  pub ctx_is : l.marker_ctx ≡ s.ctx
  pub skip_is : l.lm_occurrences_skip ≡ skip - length s.markers
  pub sent_is : sent_times l.marker_histogram ++ unanswered ≡ s.messages
  pub received_is : received_times l.marker_histogram ≡ drop skip s.markers

pub whole_messages : (w total m : ℕ) → 0 < m → (w + total % m) / m ≡ (total + w) / m - total / m
whole_messages w total m pos =
    let split = div-add-mod total m in
    let e : total + w ≡ (w + total % m) + m * (total / m) = omega (arith, split) in
    omega (arith, ap (λ n. n / m) e, add-mul-div_left (w + total % m) (total / m) pos)

pub rest_of : (w total m : ℕ) → (w + total % m) % m ≡ (total + w) % m
rest_of w total m =
    let split = div-add-mod total m in
    let e : total + w ≡ (w + total % m) + m * (total / m) = omega (arith, split) in
    sym (ap (λ n. n % m) e ∙ add-mul-mod_self_left (w + total % m) m (total / m))

pub length-map : (f : Sample → ℕ) (xs : List Sample) → length (map f xs) ≡ length xs
length-map f [] = refl
length-map f (x ∷ xs) = ap suc (length-map f xs)

drop-replicate : (k n x : ℕ) → drop k (replicate n x) ≡ replicate (n - k) x
drop-replicate zero n x = ap (λ j. replicate j x) (omega arith)
drop-replicate (suc k) zero x =
    let none_left : 0 ≡ 0 - suc k = omega arith in ap (λ j. replicate j x) none_left
drop-replicate (suc k) (suc n) x = drop-replicate k n x ∙ ap (λ j. replicate j x) (omega arith)

pub drop-append :
    (k : ℕ) (xs : List ℕ) (n x : ℕ)
    → drop k (xs ++ replicate n x) ≡ drop k xs ++ replicate (n - (k - length xs)) x
drop-append zero xs n x = ap (λ j. xs ++ replicate j x) (omega arith)
drop-append (suc k) [] n x =
    let all_left : n - suc k ≡ n - (suc k - 0) = omega arith in
    drop-replicate (suc k) n x ∙ ap (λ j. replicate j x) all_left
drop-append (suc k) (y ∷ xs) n x =
    drop-append k xs n x ∙ ap (λ j. drop k xs ++ replicate j x) (omega arith)

pub skipped : (n skip : ℕ) → skip_markers n skip ≡ (n - skip, skip - n)
skipped n skip = elim (Bool-cases (skip == 0)) [
  | inl h ↦ rw h (ap₂ (λ a b. (a, b)) (ground arith) (ground arith))
  | inr h ↦ elim (Bool-cases (leb n skip)) [
    | inl g ↦ rw h (rw g (ap₂ (λ a b. (a, b)) (ground arith) refl))
    | inr g ↦ rw h (rw g (ap₂ (λ a b. (a, b)) refl (ground arith)))
  ]
]
