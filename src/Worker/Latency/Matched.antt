-- ===== src/Worker/Latency/Matched.antt =====
-- Which times a latency sample lies between: those of a message and of the marker that answers it.
use tcpkali.Base.{
  ℕ, zero, suc, ◌+◌, ◌%◌, ◌^◌, ◌≤◌, ◌<◌, ◌≡◌, refl, sym, ap, ◌∙◌, Bool, true, false, Bytes, List,
  [], ◌∷◌, ◌++◌, map, append-nil, append_assoc, length, drop, replicate, arith,
}
use tcpkali.Ring.{RingBuffer, get}
use tcpkali.Ring.Queue.{front, rest, get_refines}
use tcpkali.Ring.Runs.{size-get}
use tcpkali.Worker.Connections.{Outcome, proceeds, exits}
use tcpkali.Worker.Latency.{Sample, seek, count_markers, take_times}
use tcpkali.Worker.Latency.Fifo.{AtRest}

module _ {C : Type 0} (feed : C → Bytes → ℕ × (Bool × C)) (reset : C → C) where
  abbrev further : (C → Bytes → ℕ × C) → Bytes → ℕ × (Bool × C) → ℕ × C
  further more s (n, (true, ctx)) = let (k, last) = more (reset ctx) (drop n s) in (suc k, last)
  further more s (n, (false, ctx)) = (0, ctx)

  -- How many markers the search finds.
  abbrev pub markers_in : ℕ → C → Bytes → ℕ × C
  markers_in zero ctx s = (0, ctx)
  markers_in (suc rounds) ctx [] = (0, ctx)
  markers_in (suc rounds) ctx (c ∷ s) = further (markers_in rounds) (c ∷ s) (feed ctx (c ∷ s))

  few_further :
      (more : C → Bytes → ℕ × C) (most : ℕ)
      → ((ctx : C) (s : Bytes) → (more ctx s).0 ≤ most)
      → (s : Bytes) (r : ℕ × (Bool × C)) → (further more s r).0 ≤ suc most
  few_further more most few s (n, (true, ctx)) = omega (arith, few (reset ctx) (drop n s))
  few_further more most few s (n, (false, ctx)) = omega arith

  pub few_markers : (rounds : ℕ) (ctx : C) (s : Bytes) → (markers_in rounds ctx s).0 ≤ rounds
  few_markers zero ctx s = omega arith
  few_markers (suc rounds) ctx [] = omega arith
  few_markers (suc rounds) ctx (c ∷ s) =
      few_further (markers_in rounds) rounds (few_markers rounds) (c ∷ s) (feed ctx (c ∷ s))

  counted_seek :
      (rounds num : ℕ) (from : ℕ → C → Bytes → ℕ × C) (more : C → Bytes → ℕ × C)
      → ((num : ℕ) (ctx : C) (s : Bytes)
          → num + rounds < 2 ^ 32
          → from num ctx s ≡ (num + (more ctx s).0, (more ctx s).1))
      → num + suc rounds < 2 ^ 32
      → (s : Bytes) (r : ℕ × (Bool × C))
      → seek feed reset from num s r ≡ (num + (further more s r).0, (further more s r).1)
  counted_seek rounds num from more h small s (n, (true, ctx)) =
      let one_more : (num + 1) % 2 ^ 32 ≡ num + 1 = omega (arith, small) in
      ap (λ k. from k (reset ctx) (drop n s)) one_more
      ∙ h (num + 1) (reset ctx) (drop n s) (omega (arith, small))
      ∙ ap (λ k. (k, (more (reset ctx) (drop n s)).1)) (omega arith)
  counted_seek rounds num from more h small s (n, (false, ctx)) = ap (λ k. (k, ctx)) (omega arith)

  pub counted_markers :
      (rounds num : ℕ) (ctx : C) (s : Bytes)
      → num + rounds < 2 ^ 32
      → count_markers feed reset rounds num ctx s
        ≡ (num + (markers_in rounds ctx s).0, (markers_in rounds ctx s).1)
  unfolding count_markers
  counted_markers zero num ctx s h = ap (λ n. (n, ctx)) (omega arith)
  counted_markers (suc rounds) num ctx [] h = ap (λ n. (n, ctx)) (omega arith)
  counted_markers (suc rounds) num ctx (c ∷ s) h =
      counted_seek rounds num (count_markers feed reset rounds) (markers_in rounds)
        (counted_markers rounds) h (c ∷ s) (feed ctx (c ∷ s))

get-AtRest :
    {rb : RingBuffer ℕ} {q : List ℕ}
    → AtRest rb q
    → AtRest (get rb).0 (rest q) × ((get rb).1 ≡ front q)
get-AtRest {rb} {q} r =
    let (left, got) = get_refines r.represents in
    (
      record {
        represents = left;
        unit_is = (size-get rb).1 ∙ r.unit_is;
        bounded = omega (arith, (size-get rb).0, r.bounded);
      },
      got,
    )

abbrev pub sent_times : List Sample → List ℕ
sent_times hist = map (λ x. x.sent_at) hist

abbrev pub received_times : List Sample → List ℕ
received_times hist = map (λ x. x.received_at) hist

-- What taking n times out leads to, where `sent` are all the times that were put in and `seen`
-- those of the markers that counted so far: all n are taken, or there are less.
pub data Draw (now n : ℕ) (q sent seen : List ℕ) (o : Outcome (RingBuffer ℕ × List Sample))
    : Type 0 where
  drawn :
      (left : RingBuffer ℕ) (hist : List Sample) (q_left : List ℕ)
      → o ≡ proceeds (left, hist)
      → AtRest left q_left
      → sent_times hist ++ q_left ≡ sent
      → received_times hist ≡ seen ++ replicate n now
      → Draw now n q sent seen o
  runs_out : o ≡ exits 1 → length q < n → Draw now n q sent seen o

one_more :
    (f : Sample → ℕ) (hist : List Sample) (x : Sample)
    → map f (hist ++ (x ∷ [])) ≡ map f hist ++ (f x ∷ [])
one_more f [] x = refl
one_more f (y ∷ hist) x = ap (λ xs. f y ∷ xs) (one_more f hist x)

weaker :
    {now n : ℕ} {x : ℕ} {q sent seen : List ℕ} {o : Outcome (RingBuffer ℕ × List Sample)}
    → Draw now n q sent (seen ++ (now ∷ [])) o
    → Draw now (suc n) (x ∷ q) sent seen o
weaker {now} {n} {x} {q} {sent} {seen} (drawn left hist q_left e r a b) =
    drawn left hist q_left e r a (b ∙ append_assoc seen (now ∷ []) (replicate n now))
weaker (runs_out e short) = runs_out e (omega (arith, short))

pub take_times_lem :
    (now n : ℕ) (rb : RingBuffer ℕ) (hist : List Sample) (q sent seen : List ℕ)
    → AtRest rb q
    → sent_times hist ++ q ≡ sent
    → received_times hist ≡ seen
    → Draw now n q sent seen (take_times now n rb hist)
unfolding take_times
take_times_lem now zero rb hist q sent seen r a b =
    drawn rb hist q refl r a (b ∙ sym (append-nil seen))
take_times_lem now (suc n) rb hist [] sent seen r a b =
    let (left, got) = get-AtRest r in runs_out (rw (got, take_times) refl) (omega arith)
take_times_lem now (suc n) rb hist (x ∷ q) sent seen r a b =
    let (left, got) = get-AtRest r in
    let sample : Sample = record { sent_at = x; received_at = now } in
    rw (got, take_times)
      (weaker (
        take_times_lem now n (get rb).0 (hist ++ (sample ∷ [])) q sent (seen ++ (now ∷ [])) left
          (ap (λ xs. xs ++ q) (one_more (λ y. y.sent_at) hist sample)
            ∙ append_assoc (sent_times hist) (x ∷ []) q
            ∙ a)
          (one_more (λ y. y.received_at) hist sample ∙ ap (λ xs. xs ++ (now ∷ [])) b)))
