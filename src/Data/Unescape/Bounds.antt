-- ===== src/Data/Unescape/Bounds.antt =====
-- The unescaped data never overtakes the data that it is written over.
use tcpkali.Base.{ℕ, zero, suc, ◌-◌, ◌≤◌, Bytes, [], ◌∷◌, arith, length, length-append}
use tcpkali.Data.Unescape.{escape, unescape_from, unescape_data}

-- An escape of two bytes or more is replaced by two at most.
pub length-escape : (junk : ℕ → ℕ) (d : ℕ) (ds : Bytes) → length (escape junk d ds).0 ≤ 2
unfolding escape
length-escape junk d ds = ground arith

pub length-unescape_from :
    (junk : ℕ → ℕ → ℕ) (k : ℕ) (cs : Bytes) → length (unescape_from junk k cs) ≤ length cs - k
unfolding unescape_from
length-unescape_from junk k [] = omega arith
length-unescape_from junk (suc k) (c ∷ cs) = omega (arith, length-unescape_from junk k cs)
length-unescape_from junk zero (c ∷ []) = omega arith
length-unescape_from junk zero (c ∷ d ∷ ds) =
    let e = escape (junk (length ds)) d ds in
    ground (
      arith,
      length-unescape_from junk 0 (d ∷ ds),
      length-unescape_from junk e.1 ds,
      length-escape (junk (length ds)) d ds,
      length-append e.0 (unescape_from junk e.1 ds),
    )

-- Whatever the data and the stack hold, the result is not longer than the data, so that the writes
-- in place stay inside it.
pub length-unescape_data :
    (junk : ℕ → ℕ → ℕ) (cs : Bytes) → length (unescape_data junk cs) ≤ length cs
unfolding unescape_data
length-unescape_data junk cs = omega (arith, length-unescape_from junk 0 cs)
