-- ===== src/Expr/Eval/Fits.antt =====
-- Expressions whose estimated sizes are right, and the strings that an expression stands for.
use tcpkali.Base.{ℕ, ◌+◌, ◌^◌, ◌≤◌, ◌<◌, ◌≡◌, Bytes, ◌++◌, Option, none, some, length}
use tcpkali.WebSocket.Frame.{Side, frame_header}
use tcpkali.Regex.{max_size}
use tcpkali.Regex.Matches.{Both, Matches, IsSized}
use tcpkali.Expr.{
  ℤ, pos, negsuc, Meta, Expr, expr, Node, text, raw, ws_frame, concat, modulo, connection_ptr,
  connection_uid, regex, message_marker, estimate,
}
use tcpkali.Expr.Decimal.{decimal}
use tcpkali.Expr.Eval.{Field, ptr, uid, marker, magnitude}

-- The sizes that the grammar gives to the fields: `sizeof("100000000000000")`, and a marker's 30.
abbrev pub field_size : Field → ℕ
field_size ptr = 16
field_size uid = 16
field_size marker = 30

-- Values have at most 15 digits, so that they print into the size of a field.
abbrev pub IsShort : Option ℤ → Type 0
IsShort none = Unit
IsShort (some (pos n)) = n < 10 ^ 15
IsShort (some (negsuc n)) = ⊥

module _ (side : Side) (Says : Field → Bytes → Type 0) where
  unfoldable mutual
    pub Denotes : Expr → Bytes → Type 0
    Denotes (expr m n) s = Means n s

    pub Means : Node → Bytes → Type 0
    Means (text t) s = s ≡ t
    Means (raw e) s = Denotes e s
    Means (ws_frame f) s = s ≡ frame_header side f.opcode f.rsvs f.fin (length f.bytes) ++ f.bytes
    Means (concat a b) s = Both (Denotes a) (Denotes b) s
    Means (modulo e k) s = (n : ℕ) × (n < magnitude k) × (s ≡ decimal n)
    Means connection_ptr s = Says ptr s
    Means connection_uid s = Says uid s
    Means (regex re) s = Matches re s
    Means message_marker s = Says marker s

  abbrev pub CacheFits : Meta → Node → Type 0
  CacheFits m n = (s : Bytes) → m.res ≡ some s → (length s ≤ m.estimate_size) × Means n s

  -- The sizes are those of the grammar or larger, no sum of them overflows, and what is kept is one
  -- of the expression's strings.
  unfoldable mutual
    pub Fits : Expr → Type 0
    Fits (expr m n) = CacheFits m n × NodeFits n m.estimate_size

    pub NodeFits : Node → ℕ → Type 0
    NodeFits (text t) size = length t ≤ size
    NodeFits (raw e) size = (estimate e ≤ size) × Fits e
    NodeFits (ws_frame f) size = (14 + length f.bytes ≤ size) × (size < 2 ^ 64)
    NodeFits (concat a b) size =
        (estimate a + estimate b ≤ size) × (estimate a + estimate b < 2 ^ 64) × Fits a × Fits b
    NodeFits (modulo e k) size = (16 ≤ size) × (estimate e ≤ size) × (0 < magnitude k) × Fits e
    NodeFits connection_ptr size = 16 ≤ size
    NodeFits connection_uid size = 16 ≤ size
    NodeFits (regex re) size = (max_size re ≤ size) × IsSized re
    NodeFits message_marker size = 30 ≤ size
