-- ===== src/Worker/Lifetimes/Orders.antt =====
-- What putting back, removing and adding connections does to predicates on all of them and to their
-- order.
use tcpkali.Base.{
  ℕ, ◌≤◌, ◌<◌, ◌≡◌, inl, inr, Bool-cases, List, [], ◌∷◌, ◌++◌, All, All-append, All-mono, some, leb,
  ◌==◌, arith,
}
use tcpkali.Worker.Connections.{Connection, find, put, remove}
use tcpkali.Worker.Lifetimes.{IsOrdered, later}

module _ (P : Connection → Type 0) where
  pub All-find :
      (fd : ℕ) (c : Connection) (xs : List Connection) → find fd xs ≡ some c → All P xs → P c
  unfolding find
  All-find fd c [] e h = cc
  All-find fd c (x ∷ xs) e h = ground (arith, All-find fd c xs)

  pub All-put : (d : Connection) (xs : List Connection) → P d → All P xs → All P (put d xs)
  unfolding put
  All-put d [] p h = tt
  All-put d (x ∷ xs) p h = elim (Bool-cases (x.sockfd == d.sockfd)) [
    | inl e ↦ rw e (p, h.1)
    | inr e ↦ rw e (h.0, All-put d xs p h.1)
  ]

  pub All-remove : (fd : ℕ) (xs : List Connection) → All P xs → All P (remove fd xs)
  unfolding remove
  All-remove fd [] h = tt
  All-remove fd (x ∷ xs) h = elim (Bool-cases (x.sockfd == fd)) [
    | inl e ↦ rw e h.1
    | inr e ↦ rw e (h.0, All-remove fd xs h.1)
  ]

  pub All-later : (t : ℕ) (xs : List Connection) → All P xs → All P (later t xs)
  All-later t [] h = tt
  All-later t (x ∷ xs) h = elim (Bool-cases (leb x.channel_eol_point t)) [
    | inl e ↦ rw e (All-later t xs h.1)
    | inr e ↦ rw e (h.0, All-later t xs h.1)
  ]

abbrev pub EndsBefore : Connection → Connection → Type 0
EndsBefore c d = c.channel_eol_point ≤ d.channel_eol_point

pub IsOrdered-put :
    (d c : Connection) (xs : List Connection)
    → find d.sockfd xs ≡ some c
    → d.channel_eol_point ≡ c.channel_eol_point
    → IsOrdered xs
    → IsOrdered (put d xs)
unfolding find put
IsOrdered-put d c [] e same o = tt
IsOrdered-put d c (x ∷ xs) e same o = elim (Bool-cases (x.sockfd == d.sockfd)) [
  | inl h ↦
      let is_c : x.channel_eol_point ≡ d.channel_eol_point = ground arith in
      rw h (All-mono (EndsBefore x) (EndsBefore d) xs (λ y before. omega arith) o.0, o.1)
  | inr h ↦
      let found : find d.sockfd xs ≡ some c = ground arith in
      let after : EndsBefore x d = omega (arith, All-find (EndsBefore x) d.sockfd c xs found o.0) in
      rw h (All-put (EndsBefore x) d xs after o.0, IsOrdered-put d c xs found same o.1)
]

pub IsOrdered-remove : (fd : ℕ) (xs : List Connection) → IsOrdered xs → IsOrdered (remove fd xs)
unfolding remove
IsOrdered-remove fd [] o = tt
IsOrdered-remove fd (x ∷ xs) o = elim (Bool-cases (x.sockfd == fd)) [
  | inl e ↦ rw e o.1
  | inr e ↦ rw e (All-remove (EndsBefore x) fd xs o.0, IsOrdered-remove fd xs o.1)
]

pub IsOrdered-append :
    (c : Connection) (xs : List Connection)
    → All (λ x. EndsBefore x c) xs
    → IsOrdered xs
    → IsOrdered (xs ++ c ∷ [])
IsOrdered-append c [] h o = (tt, tt)
IsOrdered-append c (x ∷ xs) h o =
    (All-append (EndsBefore x) xs (c ∷ []) o.0 (h.0, tt), IsOrdered-append c xs h.1 o.1)

pub IsOrdered-later : (t : ℕ) (xs : List Connection) → IsOrdered xs → IsOrdered (later t xs)
IsOrdered-later t [] o = tt
IsOrdered-later t (x ∷ xs) o = elim (Bool-cases (leb x.channel_eol_point t)) [
  | inl e ↦ rw e (IsOrdered-later t xs o.1)
  | inr e ↦ rw e (All-later (EndsBefore x) t xs o.0, IsOrdered-later t xs o.1)
]

pub later-After : (t : ℕ) (xs : List Connection) → All (λ x. t < x.channel_eol_point) (later t xs)
later-After t [] = tt
later-After t (x ∷ xs) = elim (Bool-cases (leb x.channel_eol_point t)) [
  | inl e ↦ rw e (later-After t xs)
  | inr e ↦ rw e (ground arith, later-After t xs)
]
