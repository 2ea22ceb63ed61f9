-- ===== src/Data/Tests.antt =====
-- Runs of the data functions on small inputs.
use tcpkali.Base.{ℕ, ◌+◌, ◌*◌, ◌≤◌, ◌<◌, ◌≡◌, refl, Bytes, [], ◌∷◌, true, false, arith, length}
use tcpkali.WebSocket.Detect.{codes}
use tcpkali.Data.Unescape.{unescape_data}
use tcpkali.Data.Unescape.Laws.{unescape-NoBackslash, unescape_data-IsRoomy, unescape_truncated}
use tcpkali.Data.Printable.{
  suggested_buffer_size, refused, text, printable_data, printable_data_highlight, escape_byte,
  escape_all,
}
use tcpkali.Data.Printable.Bounds.{printable_data_total}
use tcpkali.Data.RoundTrip.{unescape-printable_data}

abbrev clear : ℕ → ℕ → ℕ
clear rest k = 0

abbrev ones : ℕ → ℕ → ℕ
ones rest k = b'1'

unescape_runs :
    unescape_data clear (codes "a\\n\\x41\\0101b\\\\q\\xzz\\") ≡ codes "a\nAAb\\\\q\\xzz\\"
unfolding unescape_data
unescape_runs = refl

printable_runs :
    printable_data_highlight (codes "<") (codes ">") 100 (1 ∷ codes "a\"\nb\n") true 1 2
    ≡ text (codes "\"\\x01<a\\\">\\n\n\tb\\n\"")
unfolding printable_data_highlight escape_all escape_byte
printable_runs = refl

-- The header asks for 3 + 4 * size bytes where nothing is highlighted.
documented_size_refused : printable_data [] [] (3 + 4 * 2) (codes "ab") true ≡ refused
unfolding printable_data printable_data_highlight
documented_size_refused = refl

unescape-NoBackslash_example : unescape_data clear (codes "ab") ≡ codes "ab"
unescape-NoBackslash_example = unescape-NoBackslash clear (codes "ab") (omega arith)

unescape_data-IsRoomy_example :
    unescape_data clear (codes "\\x41bcd") ≡ unescape_data ones (codes "\\x41bcd")
unescape_data-IsRoomy_example = unescape_data-IsRoomy clear ones (codes "\\x41bcd") (omega arith)

unescape_truncated_example :
    ¬ ((j j' : ℕ → ℕ → ℕ) → unescape_data j (codes "a\\x4") ≡ unescape_data j' (codes "a\\x4"))
unescape_truncated_example =
    unescape_truncated (b'a' ∷ []) b'4' 4 ((λ e. omega (arith, e)), tt) refl (omega arith)

printable_data_total_example :
    (suggested_buffer_size 2 ≤ 60
      → (out : Bytes) × (printable_data_highlight (codes "<") (codes ">") 60 (codes "ab") true 0 1
          ≡ text out)
        × (length out + 1 ≤ 60))
    × (60 < suggested_buffer_size 2
        → printable_data_highlight (codes "<") (codes ">") 60 (codes "ab") true 0 1 ≡ refused)
printable_data_total_example =
    printable_data_total (codes "<") (codes ">") 60 (codes "ab") true 0 1 (omega arith)

unescape-printable_data_example :
    (out : Bytes) × (printable_data [] [] 60 (1 ∷ codes "ab\n") false ≡ text out)
    × (unescape_data clear out ≡ 1 ∷ codes "ab\n")
unescape-printable_data_example =
    unescape-printable_data [] [] clear 60 (1 ∷ codes "ab\n")
      (
        (omega arith, omega arith, λ e. absurd (omega arith)),
        (
          (omega arith, omega arith, λ e. absurd (omega arith)),
          (
            (omega arith, omega arith, λ e. absurd (omega arith)),
            ((omega arith, omega arith, λ e. refl), tt),
          ),
        ),
      )
      (omega arith) (omega arith)
