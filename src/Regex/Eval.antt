-- ===== src/Regex/Eval.antt =====
-- `tregex_eval_rng` of src/tcpkali_regex.c. The generator is the third-party pcg32: `rand g b` is
-- `pcg32_boundedrand_r` with its next state. The bytes are those written in front of the final
-- zero, for which the callers leave room behind the buffer.
use tcpkali.Base.{
  ℕ, zero, suc, ◌+◌, ◌-◌, ◌%◌, ◌^◌, Bytes, [], ◌∷◌, ◌++◌, ltb, leb, ◌==◌, if◌then◌else◌, length,
}
use tcpkali.Regex.{
  Regex, node, Kind, chars, oneof, sequence, alternative, repeat, Regexes, nil, cons, count,
}

-- `refused` is the result -1. `fault` is what has no meaning in the source: a failed assertion, or
-- a part that is refused and whose -1 the caller then adds to its pointer.
pub data Outcome : Type 0 where
  wrote : Bytes → Outcome
  refused fault : Outcome

module _ {G : Type 0} (rand : G → ℕ → ℕ × G) where
  abbrev pub Step : Type 0
  Step = ℕ → G → Outcome × G

  abbrev pub behind : Bytes → Outcome × G → Outcome × G
  behind a (wrote b, g) = (wrote (a ++ b), g)
  behind a (refused, g) = (fault, g)
  behind a (fault, g) = (fault, g)

  -- One part after another into the same buffer.
  abbrev pub then_next : Outcome × G → ℕ → Step → Outcome × G
  then_next (wrote a, g) size next = behind a (next (size - length a) g)
  then_next (refused, g) size next = (fault, g)
  then_next (fault, g) size next = (fault, g)

  abbrev pub nothing_more : Step
  nothing_more size g = (wrote [], g)

  -- The loop of a repeat.
  unfoldable pub cycle : ℕ → Step → Step
  cycle zero part size g = (wrote [], g)
  cycle (suc n) part size g = then_next (part size g) size (cycle n part)

  unfoldable mutual
    pub eval : Regex → Step
    eval (node lo avg hi k) size g = if ltb size hi then (refused, g) else eval_kind k size g

    pub eval_kind : Kind → Step
    eval_kind (chars s) size g = (wrote (if leb (length s) size then s else []), g)
    eval_kind (oneof o) size g =
        if o.size == 0
        then (fault, g)
        else if size == 0
        then (wrote [], g)
        else (let (i, g') = rand g o.size in (wrote (o.table i ∷ []), g'))
    eval_kind (sequence ps) size g = eval_pieces ps size g
    eval_kind (alternative bs) size g =
        let (i, g') = rand g (count bs) in then_next (eval_branch bs i size g') size nothing_more
    eval_kind (repeat what least range) size g =
        if range == 0
        then cycle (least % 2 ^ 32) (eval what) size g
        else (let (i, g') = rand g range in cycle ((least + i) % 2 ^ 32) (eval what) size g')

    pub eval_pieces : Regexes → Step
    eval_pieces nil size g = (wrote [], g)
    eval_pieces (cons p ps) size g = then_next (eval p size g) size (eval_pieces ps)

    -- The branch with the number that was drawn.
    pub eval_branch : Regexes → ℕ → Step
    eval_branch nil i size g = (fault, g)
    eval_branch (cons b bs) zero size g = eval b size g
    eval_branch (cons b bs) (suc i) size g = eval_branch bs i size g
