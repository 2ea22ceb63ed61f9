-- ===== src/Ring/Tests.antt =====
-- Rings that are full or go round the end of their buffer, and runs on them.
use tcpkali.Base.{ℕ, ◌≡◌, refl, none, some, List, [], ◌∷◌, arith}
use tcpkali.Ring.{RingBuffer, init, next_right, grow, add, get}
use tcpkali.Ring.Refine.{ring_of, contents, Represents}
use tcpkali.Ring.Runs.{Op, put, take, run, run_queue, run_refines}

abbrev identity : ℕ → ℕ
identity o = o

-- Fifteen of sixteen units of eight bytes are taken.
abbrev full : RingBuffer ℕ
full = ring_of identity 8 0 15 16

full-Represents : Represents full (contents identity 8 0 15 16)
full-Represents = record {
  mem = identity;
  u = 8;
  i = 0;
  j = 15;
  c = 16;
  shape = refl;
  unit_pos = omega arith;
  left_in = omega arith;
  right_in = omega arith;
  small = omega arith;
  holds = refl;
}

abbrev wrapped : RingBuffer ℕ
wrapped = ring_of identity 8 14 2 16

wrapped-Represents : Represents wrapped (112 ∷ 120 ∷ 0 ∷ 8 ∷ [])
wrapped-Represents = record {
  mem = identity;
  u = 8;
  i = 14;
  j = 2;
  c = 16;
  shape = refl;
  unit_pos = omega arith;
  left_in = omega arith;
  right_in = omega arith;
  small = omega arith;
  holds = refl;
}

abbrev script : List (Op ℕ)
script = take ∷ put 5 ∷ put 6 ∷ take ∷ put 7 ∷ take ∷ take ∷ take ∷ []

run-script :
    run identity (init identity 8) script ≡ some (none ∷ some 5 ∷ some 6 ∷ some 7 ∷ none ∷ [])
unfolding run init add get next_right grow
run-script = refl

get_at_end : (get (ring_of identity 8 16 2 16)).1 ≡ some 0
unfolding get
get_at_end = refl

run_refines_example : run identity (init identity 8) script ≡ some (run_queue [] script)
run_refines_example = run_refines script identity 8 (omega arith) (omega arith)
