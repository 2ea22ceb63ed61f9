-- ===== src/Worker/Totals.antt =====
-- Sums over the open connections, and what finding, changing and removing one does to them.
use tcpkali.Base.{ℕ, ◌+◌, ◌≡◌, ap, inl, inr, Bool-cases, List, [], ◌∷◌, ◌++◌, some, ◌==◌, arith}
use tcpkali.Worker.Connections.{Connection, find, put, remove}

abbrev pub total : (Connection → ℕ) → List Connection → ℕ
total g [] = 0
total g (c ∷ cs) = g c + total g cs

pub total-append :
    (g : Connection → ℕ) (xs ys : List Connection) → total g (xs ++ ys) ≡ total g xs + total g ys
total-append g [] ys = omega arith
total-append g (x ∷ xs) ys = omega (arith, total-append g xs ys)

-- One that stands in the list, whatever it is by now.
abbrev pub IsOpen : ℕ → List Connection → Type 0
IsOpen fd xs = (c : Connection) × (find fd xs ≡ some c)

pub total-put :
    (g : Connection → ℕ) (d c : Connection) (xs : List Connection)
    → find d.sockfd xs ≡ some c
    → total g (put d xs) + g c ≡ total g xs + g d
unfolding find put
total-put g d c [] e = cc
total-put g d c (x ∷ xs) e = elim (Bool-cases (x.sockfd == d.sockfd)) [
  | inl h ↦ let same : x ≡ c = ground arith in rw h (omega (arith, ap g same))
  | inr h ↦ rw h (omega (arith, total-put g d c xs (ground arith)))
]

pub total-remove :
    (g : Connection → ℕ) (fd : ℕ) (c : Connection) (xs : List Connection)
    → find fd xs ≡ some c
    → total g (remove fd xs) + g c ≡ total g xs
unfolding find remove
total-remove g fd c [] e = cc
total-remove g fd c (x ∷ xs) e = elim (Bool-cases (x.sockfd == fd)) [
  | inl h ↦ let same : x ≡ c = ground arith in rw h (omega (arith, ap g same))
  | inr h ↦ rw h (omega (arith, total-remove g fd c xs (ground arith)))
]

-- Removing a connection that was changed takes out what it counts for by now.
pub total-remove-put :
    (g : Connection → ℕ) (d c : Connection) (xs : List Connection)
    → find d.sockfd xs ≡ some c
    → total g (remove d.sockfd xs) + g d ≡ total g (put d xs)
total-remove-put g d c xs e = omega (arith, total-put g d c xs e, total-remove g d.sockfd c xs e)
