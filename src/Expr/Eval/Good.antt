-- ===== src/Expr/Eval/Good.antt =====
-- One step of the evaluation of an expression that fits.
use tcpkali.Base.{
  ℕ, zero, suc, ◌+◌, ◌-◌, ◌%◌, ◌^◌, ◌≤◌, ◌<◌, ◌≡◌, refl, sym, ap, ap₂, subst, ◌⊎◌, inl, inr, Bytes,
  [], ◌∷◌, ◌++◌, Option, none, some, some-injective, length, length-append, le→not-ltb, arith, ◌==◌,
  ◌&&◌, Bool, true, false,
}
use tcpkali.WebSocket.Frame.{Side}
use tcpkali.Regex.Matches.{Both}
use tcpkali.Expr.{
  ℤ, pos, negsuc, Scope, global_fixed, per_connection, per_message, Meta, Expr, expr, Node, concat,
  modulo, estimate,
}
use tcpkali.Expr.Decimal.{decimal, length-digits_within_le}
use tcpkali.Expr.Eval.{
  wrote, Field, Result, Switch, magnitude, remainder, printed, value_of, latest, keep, remember,
  modulo_part, concat_part, cached,
}
use tcpkali.Expr.Eval.Fits.{IsShort, Denotes, Means, CacheFits, Fits, NodeFits}

keep_wrote : (sc : Scope) (s : Bytes) (res : Option Bytes) → (keep sc (wrote s) res).1 ≡ wrote s
keep_wrote per_connection [] res = refl
keep_wrote per_connection (c ∷ s) res = refl
keep_wrote global_fixed s res = refl
keep_wrote per_message s res = refl

kept :
    (sc : Scope) (s : Bytes) (res : Option Bytes) (t : Bytes)
    → (keep sc (wrote s) res).0 ≡ some t
    → (t ≡ s) ⊎ (res ≡ some t)
kept per_connection [] res t e = inr e
kept per_connection (c ∷ s) res t e = inl (sym (some-injective _ _ e))
kept global_fixed s res t e = inr e
kept per_message s res t e = inr e

latest-IsShort : (v v' : Option ℤ) → IsShort v → IsShort v' → IsShort (latest v v')
latest-IsShort v none h h' = h
latest-IsShort v (some n) h h' = h'

value_of-IsShort : (v : Option ℤ) → IsShort v → (n : ℕ) × (n < 10 ^ 15) × (value_of v ≡ pos n)
value_of-IsShort none h = (0, omega arith, refl)
value_of-IsShort (some (pos n)) h = (n, h, refl)
value_of-IsShort (some (negsuc n)) h = absurd h

and_false : (b : Bool) → (b && false) ≡ false
and_false true = refl
and_false false = refl

remainder_pos :
    (n : ℕ) (m : ℤ) → 0 < magnitude m → remainder (pos n) m ≡ some (pos (n % magnitude m))
remainder_pos n (pos m) h = ground arith
remainder_pos n (negsuc zero) h = refl
remainder_pos n (negsuc (suc m)) h = rw (and_false (suc m == 0)) (ground arith)

printed_short : (s : Bytes) (size : ℕ) → length s < size → printed s size ≡ some s
printed_short s size h = ground arith

mod_le : (n m : ℕ) → 0 < m → (n % m < m) × (n % m ≤ n)
mod_le n m h = grind arith

module _ (side : Side) (Says : Field → Bytes → Type 0) where
  -- The result is a string of the expression that fits, and so does the new expression.
  abbrev pub Good : {W : Type 0} → Expr → Result Expr W → Type 1
  Good e r =
      (s : Bytes) × (r.outcome ≡ wrote s)
      × (length s ≤ estimate e)
      × Denotes side Says e s
      × Fits side Says r.part
      × (estimate r.part ≡ estimate e)
      × (Denotes side Says r.part ≡ Denotes side Says e)
      × IsShort r.value

  abbrev pub GoodNode : {W : Type 0} → Node → ℕ → Switch W → Type 1
  GoodNode n size r =
      (s : Bytes) × (r.outcome ≡ wrote s)
      × (length s ≤ size)
      × Means side Says n s
      × NodeFits side Says r.node size
      × (Means side Says r.node ≡ Means side Says n)
      × IsShort r.value
      × (r.returned ≡ false)

  pub remember-Good :
      {W : Type 0} (m : Meta) (n : Node) (r : Switch W)
      → CacheFits side Says m n
      → GoodNode n m.estimate_size r
      → Good (expr m n) (remember m r)
  unfolding Denotes Fits
  remember-Good m n r h (s, e, le, means, fits, same, short, stays) = rw stays (
      rw e (
        s,
        keep_wrote r.dynamic_scope s m.res,
        le,
        means,
        (
          λ t e'. elim (kept r.dynamic_scope s m.res t e') [
            | inl new ↦ (
              omega (arith, ap length new),
              subst (λ P. P t) (sym same) (subst (Means side Says n) (sym new) means),
            )
            | inr old ↦ ((h t old).0, subst (λ P. P t) (sym same) (h t old).1)
          ],
          fits,
        ),
        refl,
        same,
        short,
      ))

  pub cached-Good :
      {W : Type 0} (m : Meta) (n : Node) (sc : Scope) (size : ℕ) (res : Option Bytes) (w : W)
      (r : Result Expr W)
      → m.res ≡ res
      → Fits side Says (expr m n)
      → m.estimate_size ≤ size
      → Good (expr m n) r
      → Good (expr m n) (cached (expr m n) sc size res w r)
  cached-Good m n per_connection size (some s) w r e fits room good =
      let short : length s ≤ m.estimate_size = (unfold Fits in (fits.0 s e).0) in
      rw (le→not-ltb size (length s) (omega (arith, short, room)))
        (s, refl, short, (unfold Fits Denotes in (fits.0 s e).1), fits, refl, refl, tt)
  cached-Good m n per_connection size none w r e fits room good = good
  cached-Good m n global_fixed size res w r e fits room good = good
  cached-Good m n per_message size res w r e fits room good = good

  pub concat-Good :
      {W : Type 0} (sc : Scope) (at size k : ℕ) (a b : Expr) (next : ℕ → ℕ → W → Result Expr W)
      (r : Result Expr W)
      → estimate a + estimate b ≤ k
      → k ≤ size
      → estimate a + estimate b < 2 ^ 64
      → Good a r
      → ((at' size' : ℕ) (w : W) → estimate b ≤ size' → Good b (next at' size' w))
      → GoodNode (concat a b) k (concat_part sc at size b next r.part r.outcome r.value r.world)
  unfolding Means NodeFits
  concat-Good sc at size k a b next r sum room small (s, e, le, means, fits, keeps, same, short)
        more =
      let (s', e', le', means', fits', keeps', same', short') =
        more (at + length s) (size - length s) r.world (omega arith) in
      rw e (
        rw e' (
          s ++ s',
          refl,
          omega (arith, length-append s s'),
          (s, s', refl, means, means'),
          (omega (arith, keeps, keeps'), omega (arith, keeps, keeps'), fits, fits'),
          ap₂ Both same same',
          latest-IsShort r.value (next (at + length s) (size - length s) r.world).value short
              short',
          refl,
        ))

  pub modulo-Good :
      {W : Type 0} (sc : Scope) (size k : ℕ) (a : Expr) (m : ℤ) (r : Result Expr W)
      → 16 ≤ k
      → estimate a ≤ k
      → k ≤ size
      → 0 < magnitude m
      → Good a r
      → GoodNode (modulo a m) k (modulo_part sc size m r.part r.outcome r.value r.world)
  unfolding Means NodeFits
  modulo-Good sc size k a m r wide fits room whole (s, e, le, means, fits', keeps, same, short) =
      let (n, small, is_n) = value_of-IsShort r.value short in
      let (below, smaller) = mod_le n (magnitude m) whole in
      let len = length-digits_within_le 20 14 (n % magnitude m) (omega (arith, small, smaller)) in
      rw e (
        rw is_n (
          rw (remainder_pos n m whole) (
            rw (printed_short (decimal (n % magnitude m)) size (omega (arith, len))) (
              decimal (n % magnitude m),
              refl,
              omega (arith, len),
              (n % magnitude m, below, refl),
              (wide, omega (arith, keeps), whole, fits'),
              refl,
              omega (arith, small, smaller),
              refl,
            ))))
