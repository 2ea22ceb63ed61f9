-- ===== src/Transport/Finalize/Laws.antt =====
-- The order of a finalized collection.
use tcpkali.Base.{
  ℕ, suc, ◌≤◌, ◌<◌, ◌≡◌, refl, sym, ap, ◌∙◌, subst, ◌⊎◌, inl, inr, true, false, List, [], ◌∷◌, ◌++◌,
  All, All-append, All-mono, arith,
}
use tcpkali.Transport.{Purpose, http_header, first_msg, message, purpose_value, Snippet}
use tcpkali.Transport.Collect.Order.{IsIndexed}
use tcpkali.Transport.Finalize.{snippet_compare, is_less, insert, sort}

abbrev pub of_purpose : Purpose → Purpose → Snippet → List Snippet → List Snippet
of_purpose http_header http_header s rest = s ∷ rest
of_purpose first_msg first_msg s rest = s ∷ rest
of_purpose message message s rest = s ∷ rest
of_purpose p q s rest = rest

-- The snippets of a purpose, in their order.
abbrev pub with_purpose : Purpose → List Snippet → List Snippet
with_purpose p [] = []
with_purpose p (s ∷ ss) = of_purpose p s.flags.purpose s (with_purpose p ss)

before :
    (s t : Snippet)
    → purpose_value s.flags.purpose ≤ purpose_value t.flags.purpose
    → s.sort_index < t.sort_index
    → is_less (snippet_compare s t) ≡ true
before s t p i = ground arith

behind :
    (s t : Snippet)
    → purpose_value t.flags.purpose < purpose_value s.flags.purpose
    → is_less (snippet_compare s t) ≡ false
behind s t p = ground arith

insert_front :
    (s : Snippet) (ts : List Snippet)
    → All (λ t. is_less (snippet_compare s t) ≡ true) ts
    → insert s ts ≡ s ∷ ts
unfolding insert
insert_front s [] h = refl
insert_front s (t ∷ ts) h = rw h.0 refl

insert_past :
    (s : Snippet) (ts us : List Snippet)
    → All (λ t. is_less (snippet_compare s t) ≡ false) ts
    → insert s (ts ++ us) ≡ ts ++ insert s us
unfolding insert
insert_past s [] us h = refl
insert_past s (t ∷ ts) us h = rw h.0 (ap (λ l. t ∷ l) (insert_past s ts us h.1))

Purpose-cases : (p : Purpose) → (p ≡ http_header) ⊎ (p ≡ first_msg) ⊎ (p ≡ message)
Purpose-cases http_header = inl refl
Purpose-cases first_msg = inr (inl refl)
Purpose-cases message = inr (inr refl)

abbrev Later : Purpose → ℕ → Snippet → Type 0
Later p n t = (t.flags.purpose ≡ p) × (n ≤ t.sort_index)

Later-suc : (p : Purpose) (n : ℕ) (t : Snippet) → Later p (suc n) t → Later p n t
Later-suc p n t h = (h.0, omega (arith, h.1))

with_purpose-Later :
    (p : Purpose) (n : ℕ) (ss : List Snippet) → IsIndexed n ss → All (Later p n) (with_purpose p ss)
with_purpose-Later p n [] h = tt
with_purpose-Later p n (s ∷ ss) h =
    let later =
      All-mono (Later p (suc n)) (Later p n) (with_purpose p ss) (Later-suc p n)
        (with_purpose-Later p (suc n) ss h.1) in
    keep p s.flags.purpose (with_purpose p ss) refl later
  where
    at_least : n ≤ s.sort_index
    at_least = omega (arith, h.0)

    keep :
        (p q : Purpose) (ts : List Snippet)
        → s.flags.purpose ≡ q
        → All (Later p n) ts
        → All (Later p n) (of_purpose p q s ts)
    keep http_header http_header ts e later = ((e, at_least), later)
    keep http_header first_msg ts e later = later
    keep http_header message ts e later = later
    keep first_msg http_header ts e later = later
    keep first_msg first_msg ts e later = ((e, at_least), later)
    keep first_msg message ts e later = later
    keep message http_header ts e later = later
    keep message first_msg ts e later = later
    keep message message ts e later = ((e, at_least), later)

All-before :
    (s : Snippet) (p : Purpose) (ts : List Snippet)
    → purpose_value s.flags.purpose ≤ purpose_value p
    → All (Later p (suc s.sort_index)) ts
    → All (λ t. is_less (snippet_compare s t) ≡ true) ts
All-before s p ts le h =
    All-mono (Later p (suc s.sort_index)) (λ t. is_less (snippet_compare s t) ≡ true) ts
      (λ t later. before s t (omega (arith, ap purpose_value later.0)) (omega (arith, later.1))) h

All-behind :
    (s : Snippet) (p : Purpose) (n : ℕ) (ts : List Snippet)
    → purpose_value p < purpose_value s.flags.purpose
    → All (Later p n) ts
    → All (λ t. is_less (snippet_compare s t) ≡ false) ts
All-behind s p n ts lt h =
    All-mono (Later p n) (λ t. is_less (snippet_compare s t) ≡ false) ts
      (λ t later. behind s t (omega (arith, ap purpose_value later.0))) h

abbrev pub by_purpose : List Snippet → List Snippet
by_purpose ss =
    with_purpose http_header ss ++ (with_purpose first_msg ss ++ with_purpose message ss)

insert-by_purpose :
    (s : Snippet) (ss : List Snippet)
    → IsIndexed (suc s.sort_index) ss
    → insert s (by_purpose ss) ≡ by_purpose (s ∷ ss)
insert-by_purpose s ss h = elim (Purpose-cases s.flags.purpose) [
  | inl e ↦
      (insert_front s (hs ++ (fs ++ ms)) (
        All-append _ hs (fs ++ ms)
          (All-before s http_header hs (omega (arith, ap purpose_value e)) later_h)
          (All-append _ fs ms
            (All-before s first_msg fs (omega (arith, ap purpose_value e)) later_f)
            (All-before s message ms (omega (arith, ap purpose_value e)) later_m))))
      ∙ sym (moved e)
  | inr (inl e) ↦
      (insert_past s hs (fs ++ ms) (
          All-behind s http_header (suc s.sort_index) hs (omega (arith, ap purpose_value e))
            later_h)
        ∙ ap (λ l. hs ++ l)
            (insert_front s (fs ++ ms) (
              All-append _ fs ms
                (All-before s first_msg fs (omega (arith, ap purpose_value e)) later_f)
                (All-before s message ms (omega (arith, ap purpose_value e)) later_m))))
      ∙ sym (moved e)
  | inr (inr e) ↦
      (insert_past s hs (fs ++ ms) (
          All-behind s http_header (suc s.sort_index) hs (omega (arith, ap purpose_value e))
            later_h)
        ∙ ap (λ l. hs ++ l)
            (insert_past s fs ms (
                All-behind s first_msg (suc s.sort_index) fs (omega (arith, ap purpose_value e))
                  later_f)
              ∙ ap (λ l. fs ++ l)
                  (insert_front s ms
                    (All-before s message ms (omega (arith, ap purpose_value e)) later_m))))
      ∙ sym (moved e)
]
  where
    hs : List Snippet
    hs = with_purpose http_header ss

    fs : List Snippet
    fs = with_purpose first_msg ss

    ms : List Snippet
    ms = with_purpose message ss

    later_h : All (Later http_header (suc s.sort_index)) hs
    later_h = with_purpose-Later http_header (suc s.sort_index) ss h

    later_f : All (Later first_msg (suc s.sort_index)) fs
    later_f = with_purpose-Later first_msg (suc s.sort_index) ss h

    later_m : All (Later message (suc s.sort_index)) ms
    later_m = with_purpose-Later message (suc s.sort_index) ss h

    moved :
        {q : Purpose}
        → s.flags.purpose ≡ q
        → by_purpose (s ∷ ss)
          ≡ of_purpose http_header q s hs
            ++ (of_purpose first_msg q s fs ++ of_purpose message q s ms)
    moved e =
        ap
          (λ k.
            of_purpose http_header k s hs
            ++ (of_purpose first_msg k s fs ++ of_purpose message k s ms))
          e

-- Sorting snippets that carry their positions puts the headers first, then the first messages, then
-- the messages, each in the order in which they were added.
pub sort-by_purpose : (n : ℕ) (ss : List Snippet) → IsIndexed n ss → sort ss ≡ by_purpose ss
unfolding sort
sort-by_purpose n [] h = refl
sort-by_purpose n (s ∷ ss) h =
    ap (insert s) (sort-by_purpose (suc n) ss h.1)
    ∙ insert-by_purpose s ss (subst (λ k. IsIndexed (suc k) ss) (sym h.0) h.1)
