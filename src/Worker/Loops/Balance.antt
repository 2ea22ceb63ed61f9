-- ===== src/Worker/Loops/Balance.antt =====
-- How new connections are spread over the workers.
use tcpkali.Base.{
  ℕ, zero, suc, ◌+◌, ◌*◌, ◌%◌, ◌^◌, ◌<◌, ◌≡◌, refl, ap, ap₂, ◌∙◌, Bool, true, false, List, [], ◌∷◌,
  inl, inr, Bool-cases, ltb, arith,
}
use native.Mathlib.Nat.{add-mul-mod_self_left, mod-eq_of_lt}
use tcpkali.Worker.Connections.{proceeds}
use tcpkali.Worker.Loops.{Control, write_c, initiate_from, engine_initiate_new_connections}

-- n workers, of which the first r got one command more than the q of each other.
abbrev pub shares : ℕ → ℕ → ℕ → List ℕ
shares zero r q = []
shares (suc n) zero q = q ∷ shares n zero q
shares (suc n) (suc r) q = suc q ∷ shares n r q

shares_full : (n q : ℕ) → shares n n q ≡ shares n 0 (suc q)
shares_full zero q = refl
shares_full (suc n) q = ap (λ xs. suc q ∷ xs) (shares_full n q)

write_c-shares : (n r q : ℕ) → r < n → write_c r (shares n r q) ≡ shares n (suc r) q
write_c-shares zero r q h = ground arith
write_c-shares (suc n) zero q h = refl
write_c-shares (suc n) (suc r) q h = ap (λ xs. suc q ∷ xs) (write_c-shares n r q (omega (arith, h)))

-- After `order` commands to k workers.
abbrev pub IsFair : ℕ → Control → Type 0
IsFair k c =
    (q : ℕ) × (r : ℕ) × (c.next_worker_order ≡ r + k * q) × (r < k) × (c.initiated ≡ shares k r q)

rest_lem : (k r q : ℕ) → r < k → (r + k * q) % k ≡ r
rest_lem k r q h = add-mul-mod_self_left r k q ∙ mod-eq_of_lt h

full_lem : (n k q r : ℕ) → n ≡ r + k * q → suc r ≡ k → n + 1 ≡ 0 + k * suc q
full_lem n k q r e full = omega (arith, e, full)

step-IsFair :
    (k : ℕ) (c : Control)
    → IsFair k c
    → IsFair k (record {
      next_worker_order = c.next_worker_order + 1;
      initiated = write_c (c.next_worker_order % k) c.initiated;
    })
step-IsFair k c (q, r, order, small, e) =
    let place = ap (λ n. n % k) order ∙ rest_lem k r q small in
    let chosen = ap₂ write_c place e ∙ write_c-shares k r q small in
    elim (Bool-cases (ltb (r + 1) k)) [
      | inl h ↦ (q, suc r, omega (arith, order), ground arith, chosen)
      | inr h ↦
          let full : suc r ≡ k = ground arith in
          (
            suc q,
            0,
            full_lem c.next_worker_order k q r order full,
            omega (arith, small),
            chosen ∙ ap (λ n. shares k n q) full ∙ shares_full k q,
          )
    ]

abbrev told : ℕ → Control → Control
told k c = record {
  next_worker_order = c.next_worker_order + 1;
  initiated = write_c (c.next_worker_order % k) c.initiated;
}

initiate_from-IsFair :
    (interrupted : ℕ → Bool) (k left n : ℕ) (c : Control)
    → IsFair k c
    → c.next_worker_order + left < 2 ^ 31
    → ((i : ℕ) → i < n + left → interrupted i ≡ false)
    → (d : Control) × (initiate_from interrupted k left n c ≡ proceeds (n + left, d))
      × (d.next_worker_order ≡ c.next_worker_order + left)
      × IsFair k d
unfolding initiate_from
initiate_from-IsFair interrupted k zero n c fair small calm =
    (c, ap (λ m. proceeds (m, c)) (omega arith), omega arith, fair)
initiate_from-IsFair interrupted k (suc left) n c fair small calm =
    let (d, e, order, fair_after) =
      initiate_from-IsFair interrupted k left (n + 1) (told k c) (step-IsFair k c fair)
        (omega (arith, small)) (λ i h. calm i (omega (arith, h))) in
    let far : ltb (c.next_worker_order + 1) (2 ^ 31) ≡ true = ground arith in
    (
      d,
      rw far (rw (calm n (omega arith)) (e ∙ ap (λ m. proceeds (m, d)) (omega arith))),
      omega (arith, order),
      fair_after,
    )

-- As long as no write is interrupted and the order number stays below 2 ^ 31, the commands that
-- n_req new connections need are all written, and over any number of such calls the counts of two
-- workers differ by at most one: each has q commands, and the first r of the k have one more, where
-- k * q + r is the number of commands so far.
pub engine_initiate_new_connections-IsFair :
    (interrupted : ℕ → Bool) (k n_req : ℕ) (c : Control)
    → IsFair k c
    → c.next_worker_order + n_req < 2 ^ 31
    → ((i : ℕ) → i < n_req → interrupted i ≡ false)
    → (d : Control) × (engine_initiate_new_connections interrupted k n_req c ≡ proceeds (n_req, d))
      × (d.next_worker_order ≡ c.next_worker_order + n_req)
      × IsFair k d
unfolding engine_initiate_new_connections
engine_initiate_new_connections-IsFair interrupted k n_req c fair small calm =
    let (d, e, order, fair_after) =
      initiate_from-IsFair interrupted k n_req 0 c fair small (λ i h. calm i (omega (arith, h))) in
    (d, e ∙ ap (λ m. proceeds (m, d)) (omega arith), order, fair_after)
