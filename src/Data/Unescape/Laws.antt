-- ===== src/Data/Unescape/Laws.antt =====
-- When unescaping changes nothing, when it does not depend on uninitialised memory, and when it
-- does.
use tcpkali.Base.{
  ℕ, zero, suc, ◌+◌, ◌*◌, ◌≤◌, ◌<◌, ◌≡◌, refl, sym, ap, ◌∙◌, ◌≢◌, true, Bytes, [], ◌∷◌, ◌++◌, arith,
  ◌==◌, length, drop, some, inl, inr, Bool-cases, ==_iff,
}
use tcpkali.Data.Unescape.{digit_value, digits, escape, unescape_from, unescape_data}

abbrev pub NoBackslash : Bytes → Type 0
NoBackslash [] = Unit
NoBackslash (c ∷ cs) = (c ≢ b'\\') × NoBackslash cs

-- Data with no backslash is left as it is.
pub unescape-NoBackslash :
    (junk : ℕ → ℕ → ℕ) (cs : Bytes) → NoBackslash cs → unescape_data junk cs ≡ cs
unfolding unescape_from unescape_data
unescape-NoBackslash junk [] h = refl
unescape-NoBackslash junk (c ∷ []) h = refl
unescape-NoBackslash junk (c ∷ d ∷ ds) h =
    ground (arith, h.0, unescape-NoBackslash junk (d ∷ ds) h.1)

-- Every backslash has four bytes or more behind it.
abbrev pub IsRoomy : Bytes → Type 0
IsRoomy [] = Unit
IsRoomy (c ∷ cs) = (c ≡ b'\\' → 4 ≤ length cs) × IsRoomy cs

digits-full :
    (j j' : ℕ → ℕ) (k n : ℕ) (cs : Bytes) → n ≤ length cs → digits j k n cs ≡ digits j' k n cs
unfolding digits
digits-full j j' k zero cs h = refl
digits-full j j' k (suc n) [] h = elim h [ ]
digits-full j j' k (suc n) (c ∷ cs) h = ap (◌∷◌ c) (digits-full j j' (suc k) n cs (omega arith))

escape-full : (j j' : ℕ → ℕ) (d : ℕ) (ds : Bytes) → 3 ≤ length ds → escape j d ds ≡ escape j' d ds
unfolding escape
escape-full j j' d ds h =
    rw (digits-full j j' 0 2 ds (omega arith), digits-full j j' 0 4 (b'0' ∷ ds) (omega arith)) refl

unescape_from-IsRoomy :
    (j j' : ℕ → ℕ → ℕ) (k : ℕ) (cs : Bytes)
    → IsRoomy cs
    → unescape_from j k cs ≡ unescape_from j' k cs
unfolding unescape_from
unescape_from-IsRoomy j j' k [] h = refl
unescape_from-IsRoomy j j' (suc k) (c ∷ cs) h = unescape_from-IsRoomy j j' k cs h.1
unescape_from-IsRoomy j j' zero (c ∷ []) h = refl
unescape_from-IsRoomy j j' zero (c ∷ d ∷ ds) h = elim (Bool-cases (c == b'\\')) [
  | inl e ↦
      rw (e, escape-full (j (length ds)) (j' (length ds)) d ds (three e))
        (ap (λ r. (escape (j' (length ds)) d ds).0 ++ r)
          (unescape_from-IsRoomy j j' (escape (j' (length ds)) d ds).1 ds h.1.1))
  | inr e ↦ rw e (ap (◌∷◌ c) (unescape_from-IsRoomy j j' 0 (d ∷ ds) h.1))
]
  where
    three : (c == b'\\') ≡ true → 3 ≤ length ds
    three e = omega (arith, h.0 ((==_iff c b'\\').0 e))

-- Where every backslash has at least four bytes behind it, what the stack holds does not matter.
pub unescape_data-IsRoomy :
    (j j' : ℕ → ℕ → ℕ) (cs : Bytes) → IsRoomy cs → unescape_data j cs ≡ unescape_data j' cs
unfolding unescape_data
unescape_data-IsRoomy j j' cs h = unescape_from-IsRoomy j j' 0 cs h

unescape_one_digit :
    (j : ℕ → ℕ → ℕ) (c v : ℕ)
    → digit_value c ≡ some v
    → v < 16
    → j 1 1 ≡ 0
    → unescape_data j (b'\\' ∷ b'x' ∷ c ∷ []) ≡ v ∷ []
unfolding unescape_data
unescape_one_digit j c v h lt e = ground arith

unescape_two_digits :
    (j : ℕ → ℕ → ℕ) (c v : ℕ)
    → digit_value c ≡ some v
    → v < 16
    → j 1 1 ≡ b'1'
    → unescape_data j (b'\\' ∷ b'x' ∷ c ∷ []) ≡ (v * 16 + 1) ∷ []
unfolding unescape_data
unescape_two_digits j c v h lt e = ground arith

-- What stands in front of an escape is left as it is, and does not change what the escape gives.
unescape-behind :
    (j : ℕ → ℕ → ℕ) (before : Bytes) (c : ℕ) (cs : Bytes)
    → NoBackslash before
    → unescape_data j (before ++ (c ∷ cs)) ≡ before ++ unescape_data j (c ∷ cs)
unfolding unescape_from unescape_data
unescape-behind j [] c cs h = refl
unescape-behind j (b ∷ []) c cs h = ground (arith, h.0)
unescape-behind j (b ∷ d ∷ ds) c cs h = ground (arith, h.0, unescape-behind j (d ∷ ds) c cs h.1)

append_cancel : (before s t : Bytes) → before ++ s ≡ before ++ t → s ≡ t
append_cancel [] s t e = e
append_cancel (b ∷ before) s t e = append_cancel before s t (ap (λ xs. drop 1 xs) e)

-- Data without backslashes that is followed by `\x` and a single hexadecimal digit at the end is not
-- converted to a value of its own: the result depends on uninitialised memory.
pub unescape_truncated :
    (before : Bytes) (c v : ℕ)
    → NoBackslash before
    → digit_value c ≡ some v
    → v < 16
    → ¬ (
        (j j' : ℕ → ℕ → ℕ)
        → unescape_data j (before ++ (b'\\' ∷ b'x' ∷ c ∷ []))
          ≡ unescape_data j' (before ++ (b'\\' ∷ b'x' ∷ c ∷ [])))
unescape_truncated before c v plain h lt all =
    let zeros : ℕ → ℕ → ℕ = λ _ _. 0 in
    let ones : ℕ → ℕ → ℕ = λ _ _. b'1' in
    let ending : Bytes = b'x' ∷ c ∷ [] in
    let same : unescape_data zeros (b'\\' ∷ ending) ≡ unescape_data ones (b'\\' ∷ ending) =
      append_cancel before _ _ (
        sym (unescape-behind zeros before b'\\' ending plain)
        ∙ all zeros ones
        ∙ unescape-behind ones before b'\\' ending plain) in
    ground
      (arith, same, unescape_one_digit zeros c v h lt refl, unescape_two_digits ones c v h lt refl)
