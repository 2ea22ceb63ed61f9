-- ===== src/Regex/Tests.antt =====
-- Runs of the regular expressions on small inputs.
use tcpkali.Base.{ℕ, ◌+◌, ◌%◌, ◌≤◌, ◌<◌, ◌≡◌, refl, ◌↔◌, ◌⊎◌, Bytes, some, length, arith}
use tcpkali.WebSocket.Detect.{codes}
use tcpkali.Regex.{Regex, max_size, node, sequence, alternative, nil, cons}
use tcpkali.Regex.Build.{
  string, range, join, join_sequence, alternative_of, alternative_add, repeat_of,
}
use tcpkali.Regex.Eval.{wrote, refused, fault, cycle, eval}
use tcpkali.Regex.Matches.{Both, Matches, IsSized}
use tcpkali.Regex.Sizes.{eval-Matches}
use tcpkali.Regex.Built.{Built, from_text, from_range, from_join, from_repeat}
use tcpkali.Regex.Built.Ops.{Built-IsSized}
use tcpkali.Regex.Full.{all_range, eval-IsFull}
use tcpkali.Regex.Language.{Matches-join, Matches-alternative_add}

-- A generator that counts.
abbrev counter : ℕ → ℕ → ℕ × ℕ
counter g b = (g % b, g + 1)

counter_below : (g b : ℕ) → 0 < b → (counter g b).0 < b
counter_below g b h = omega arith

abbrev letters : Regex
letters = repeat_of (range b'a' b'z') 3 1

abbrev word : Regex
word = node 3 4 5 (sequence (cons (string (codes "id")) (cons letters nil)))

join_runs : join (string (codes "id")) letters ≡ some word
unfolding join join_sequence string repeat_of range
join_runs = refl

eval_runs : eval counter word 5 1 ≡ (wrote (codes "idcd"), 4)
unfolding eval cycle string repeat_of range
eval_runs = refl

word-Built : Built word
word-Built =
    from_join (from_text (codes "id"))
      (from_repeat 3 1 (from_range b'a' b'z' (omega arith) (omega arith)) (omega arith)
        (omega arith) (unfold range in omega arith) (unfold range in omega arith))
      (unfold string repeat_of range in omega arith) join_runs

Built-IsSized_example : IsSized word
Built-IsSized_example = Built-IsSized word-Built

eval-Matches_example :
    (5 ≤ 8
      → (out : Bytes) × (g : ℕ) × (eval counter word 8 1 ≡ (wrote out, g))
        × Matches word out
        × (3 ≤ length out)
        × (length out ≤ 5))
    × (8 < 5 → eval counter word 8 1 ≡ (refused, 1))
eval-Matches_example = eval-Matches counter counter_below word 8 1 (Built-IsSized word-Built)

Matches-join_example :
    Matches word (codes "idq")
    ↔ Both (Matches (string (codes "id"))) (Matches letters) (codes "idq")
Matches-join_example = Matches-join (string (codes "id")) letters word (codes "idq") join_runs

abbrev either : Regex
either = node 1 1 2 (alternative (cons (string (codes "a")) (cons (string (codes "bc")) nil)))

either_runs :
    alternative_add (alternative_of (string (codes "a"))) (string (codes "bc")) ≡ some either
unfolding alternative_add alternative_of string
either_runs = refl

Matches-alternative_add_example : Matches either (codes "bc") ↔ (
    Matches (alternative_of (string (codes "a"))) (codes "bc")
    ⊎ Matches (string (codes "bc")) (codes "bc"))
Matches-alternative_add_example =
    Matches-alternative_add (alternative_of (string (codes "a"))) (string (codes "bc")) either
      (codes "bc") either_runs

eval_full : eval counter (range 0 255) 4 1 ≡ (fault, 1)
unfolding eval range
eval_full = refl

range_fits : max_size (range 0 255) ≤ 4
unfolding range
range_fits = omega arith

eval-IsFull_example : eval counter (range 0 255) 4 1 ≡ (fault, 1)
eval-IsFull_example = eval-IsFull counter 4 1 range_fits all_range
