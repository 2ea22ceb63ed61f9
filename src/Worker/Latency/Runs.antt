-- ===== src/Worker/Latency/Runs.antt =====
-- Whole exchanges, each step of them and all.
use tcpkali.Base.{
  ℕ, zero, suc, ◌+◌, ◌-◌, ◌/◌, ◌%◌, ◌^◌, ◌≤◌, ◌<◌, ◌≡◌, refl, sym, ap, ◌∙◌, inl, inr, Bool, Bytes,
  List, [], ◌∷◌, ◌++◌, append_assoc, length, length-append, length-drop, length-replicate, drop,
  replicate, All, arith,
}
use native.Mathlib.Nat.{mod-lt, mod-eq_of_lt}
use tcpkali.Ring.{init}
use tcpkali.Ring.Queue.{init_refines, size-init}
use tcpkali.Worker.Connections.{Outcome, proceeds, exits, ◌>>=◌}
use tcpkali.Worker.Latency.{
  Latency, count_markers, latency_record_incoming, Exchange, sends, arrives, exchange, exchanges,
}
use tcpkali.Worker.Latency.Fifo.{batched, overflows, outgoing_lem}
use tcpkali.Worker.Latency.Matched.{
  markers_in, counted_markers, sent_times, drawn, runs_out, take_times_lem,
}
use tcpkali.Worker.Latency.Seen.{
  Seen, begun, IsShort, GivesUp, Follows, whole_messages, rest_of, length-map, drop-append, skipped,
}

first_credit : (m : ℕ) → 0 < m → m - 1 ≡ (0 + (m - 1)) % m
first_credit m pos = sym (ap (λ k. k % m) (omega arith) ∙ mod-eq_of_lt (omega (arith, pos)))

none_dropped : (k : ℕ) → ◌≡◌ {A = List ℕ} [] (drop k [])
none_dropped zero = refl
none_dropped (suc k) = refl

module _ {C : Type 0} (junk : ℕ → ℕ) (feed : C → Bytes → ℕ × (Bool × C)) (reset : C → C) where
  abbrev pub see : ℕ → Seen C → Exchange → Seen C
  see m s (sends now w) = record s {
    total = s.total + w;
    messages = s.messages ++ replicate (begun m (s.total + w) - begun m s.total) now;
  }
  see m s (arrives now bytes) =
      let (n, ctx) = markers_in feed reset (length bytes) s.ctx bytes in
      record s { ctx = ctx; markers = s.markers ++ replicate n now }

  abbrev pub see_all : ℕ → Seen C → List Exchange → Seen C
  see_all m s [] = s
  see_all m s (e ∷ es) = see_all m (see m s e) es

  -- What exchanges lead to, after `s` was seen.
  pub data Verdict (m skip : ℕ) (s : Seen C) (es : List Exchange) (o : Outcome (Latency C))
      : Type 0 where
    goes_on :
        (l : Latency C) → o ≡ proceeds l → Follows m skip (see_all m s es) l → Verdict m skip s es o
    gives_up :
        (before after : List Exchange)
        → es ≡ before ++ after
        → o ≡ exits 1
        → GivesUp skip (see_all m s before)
        → Verdict m skip s es o

  -- So many samples there are.
  sampled :
      (m skip : ℕ) (s : Seen C) (l : Latency C)
      → Follows m skip s l
      → length (sent_times l.marker_histogram) ≡ length s.markers - skip
  sampled m skip s l f =
      let h = l.marker_histogram in
      omega (
        arith,
        length-map (λ x. x.sent_at) h,
        length-map (λ x. x.received_at) h,
        ap length f.received_is,
        length-drop skip s.markers,
      )

  sending :
      (m skip now w : ℕ) (s : Seen C) (l : Latency C)
      → 0 < m
      → m ≤ 2 ^ 32
      → w < 2 ^ 50
      → Follows m skip s l
      → Verdict m skip s (sends now w ∷ []) (exchange junk m feed reset (sends now w) l)
  unfolding exchange
  sending m skip now w s l pos small short f =
      let n = (w + l.message_bytes_credit) / m in
      let swap : s.total + (m - 1) + w ≡ s.total + w + (m - 1) = omega arith in
      let number : n ≡ begun m (s.total + w) - begun m s.total =
        ap (λ c. (w + c) / m) f.credit_is
        ∙ whole_messages w (s.total + (m - 1)) m pos
        ∙ ap (λ k. k / m - begun m s.total) swap in
      let below = mod-lt (s.total + (m - 1)) pos in
      let put_in : sent_times l.marker_histogram ++ (f.unanswered ++ replicate n now)
          ≡ (see m s (sends now w)).messages =
        sym (append_assoc (sent_times l.marker_histogram) f.unanswered (replicate n now))
        ∙ ap (λ a. a ++ replicate n now) f.sent_is
        ∙ ap (λ j. s.messages ++ replicate j now) number in
      elim (outgoing_lem junk m now w l f.unanswered pos small (omega (arith, below, f.credit_is))
        f.ring) [
          | batched rb r e ↦ goes_on _ e (record {
            unanswered = f.unanswered ++ replicate n now;
            ring = r;
            credit_is =
                ap (λ c. (w + c) % m) f.credit_is
                ∙ rest_of w (s.total + (m - 1)) m
                ∙ ap (λ k. k % m) swap;
            ctx_is = f.ctx_is;
            skip_is = f.skip_is;
            sent_is = put_in;
            received_is = f.received_is;
          })
          | overflows e many ↦ gives_up (sends now w ∷ []) [] refl e (
              inr (
                omega (
                  arith,
                  many,
                  ap length put_in,
                  length-append (sent_times l.marker_histogram) (f.unanswered ++ replicate n now),
                  sampled m skip s l f,
                )))
        ]

  arriving :
      (m skip now : ℕ) (bytes : Bytes) (s : Seen C) (l : Latency C)
      → length bytes < 2 ^ 32
      → Follows m skip s l
      → Verdict m skip s (arrives now bytes ∷ []) (exchange junk m feed reset (arrives now bytes) l)
  unfolding exchange latency_record_incoming
  arriving m skip now bytes s l short f =
      let n = (markers_in feed reset (length bytes) s.ctx bytes).0 in
      let ctx = (markers_in feed reset (length bytes) s.ctx bytes).1 in
      let found : count_markers feed reset (length bytes) 0 l.marker_ctx bytes ≡ (n, ctx) =
        ap (λ c. count_markers feed reset (length bytes) 0 c bytes) f.ctx_is
        ∙ counted_markers feed reset (length bytes) 0 s.ctx bytes (omega (arith, short))
        ∙ ap (λ k. (k, ctx)) (omega arith) in
      let skips = skipped n l.lm_occurrences_skip in
      let counting = n - l.lm_occurrences_skip in
      let longer = length-append s.markers (replicate n now) in
      let copies = length-replicate n now in
      let answered : drop skip s.markers ++ replicate counting now
          ≡ drop skip (s.markers ++ replicate n now) =
        ap (λ k. drop skip s.markers ++ replicate (n - k) now) f.skip_is
        ∙ sym (drop-append skip s.markers n now) in
      elim (take_times_lem now counting l.sent_timestamps l.marker_histogram f.unanswered s.messages
        (drop skip s.markers) f.ring f.sent_is f.received_is) [
          | drawn left hist q e r a b ↦
              goes_on
                (record {
                  sent_timestamps = left;
                  message_bytes_credit = l.message_bytes_credit;
                  marker_ctx = ctx;
                  lm_occurrences_skip = l.lm_occurrences_skip - n;
                  marker_histogram = hist;
                })
                (rw (found, skips, e) refl)
                (record {
                  unanswered = q;
                  ring = r;
                  credit_is = f.credit_is;
                  ctx_is = refl;
                  skip_is = omega (arith, f.skip_is, longer, copies);
                  sent_is = a;
                  received_is = b ∙ answered;
                })
          | runs_out e few ↦ gives_up (arrives now bytes ∷ []) [] refl (rw (found, skips, e) refl) (
              inl omega (
                arith,
                few,
                f.skip_is,
                longer,
                copies,
                sampled m skip s l f,
                ap length f.sent_is,
                length-append (sent_times l.marker_histogram) f.unanswered,
              ))
        ]

  exchange-Verdict :
      (m skip : ℕ) (e : Exchange) (s : Seen C) (l : Latency C)
      → 0 < m
      → m ≤ 2 ^ 32
      → IsShort e
      → Follows m skip s l
      → Verdict m skip s (e ∷ []) (exchange junk m feed reset e l)
  exchange-Verdict m skip (sends now w) s l pos small short f =
      sending m skip now w s l pos small short f
  exchange-Verdict m skip (arrives now bytes) s l pos small short f =
      arriving m skip now bytes s l short f

  later :
      {m skip : ℕ} {e : Exchange} {es : List Exchange} {s : Seen C} {o : Outcome (Latency C)}
      → Verdict m skip (see m s e) es o
      → Verdict m skip s (e ∷ es) o
  later (goes_on l same f) = goes_on l same f
  later {e = e} (gives_up before after split ends g) =
      gives_up (e ∷ before) after (ap (λ xs. e ∷ xs) split) ends g

  -- One exchange, and what the others lead to behind it.
  before_all :
      (m skip : ℕ) (e : Exchange) (es : List Exchange) (s : Seen C) (o : Outcome (Latency C))
      → ((l : Latency C)
          → Follows m skip (see m s e) l
          → Verdict m skip (see m s e) es (exchanges junk m feed reset es l))
      → Verdict m skip s (e ∷ []) o
      → Verdict m skip s (e ∷ es) (o >>= exchanges junk m feed reset es)
  before_all m skip e es s o others (goes_on l same f) = rw same (later (others l f))
  before_all m skip e es s o others (gives_up before after split ends g) =
      gives_up before (after ++ es) (ap (λ xs. xs ++ es) split ∙ append_assoc before after es)
        (rw ends refl) g

  pub exchanges-Verdict :
      (m skip : ℕ) (es : List Exchange) (s : Seen C) (l : Latency C)
      → 0 < m
      → m ≤ 2 ^ 32
      → All IsShort es
      → Follows m skip s l
      → Verdict m skip s es (exchanges junk m feed reset es l)
  unfolding exchanges
  exchanges-Verdict m skip [] s l pos small short f = goes_on l refl f
  exchanges-Verdict m skip (e ∷ es) s l pos small (first, short) f =
      before_all m skip e es s (exchange junk m feed reset e l)
        (λ after g. exchanges-Verdict m skip es (see m s e) after pos small short g)
        (exchange-Verdict m skip e s l pos small first f)

  abbrev pub nothing_seen : C → Seen C
  nothing_seen ctx = record { total = 0; messages = []; markers = []; ctx = ctx }

  abbrev pub new_latency : ℕ → C → ℕ → Latency C
  new_latency m ctx skip = record {
    sent_timestamps = init junk 8;
    message_bytes_credit = m - 1;
    marker_ctx = ctx;
    lm_occurrences_skip = skip;
    marker_histogram = [];
  }

  -- On a new connection, for messages of 1 to 2 ^ 32 bytes, and callbacks that send less than
  -- 2 ^ 50 bytes or get less than 2 ^ 32: whatever is sent, found and to be skipped, and in
  -- whatever order, no assertion fails, and as long as the process goes on the i-th sample of
  -- latency lies between the time at which the i-th message began and that at which the i-th marker
  -- was found of those that are not skipped. The process ends only after more markers than messages
  -- and markers to skip, or where 655360 messages had no answer yet.
  pub exchanges_total :
      (m skip : ℕ) (es : List Exchange) (ctx : C)
      → 0 < m
      → m ≤ 2 ^ 32
      → All IsShort es
      → Verdict m skip
          (nothing_seen ctx)
          es
          (exchanges junk m feed reset es (new_latency m ctx skip))
  exchanges_total m skip es ctx pos small short =
      exchanges-Verdict m skip es (nothing_seen ctx) (new_latency m ctx skip) pos small short
        (record {
          unanswered = [];
          ring = record {
            represents = init_refines junk 8 (omega arith) (omega arith);
            unit_is = (size-init junk 8).1;
            bounded = omega (arith, (size-init junk 8).0);
          };
          credit_is = first_credit m pos;
          ctx_is = refl;
          skip_is = omega arith;
          sent_is = refl;
          received_is = none_dropped skip;
        })
