-- ===== src/Engine/Fields.antt =====
-- `expr_callback` of src/tcpkali_engine.c: the fields of an expression that the connection knows. The
-- case for other kinds of expression is not reached from `eval_expression`. "%p" is what the C
-- libraries in use write; an address is below 2 ^ 63.
use tcpkali.Base.{
  ℕ, zero, suc, ◌+◌, ◌-◌, ◌*◌, ◌/◌, ◌%◌, ◌^◌, ◌≤◌, ◌<◌, ◌≡◌, refl, Bytes, [], ◌∷◌, ◌++◌, Option,
  none, some, length, length-append, ltb, if◌then◌else◌, ◌==◌, arith, le→not-ltb,
}
use tcpkali.WebSocket.Detect.{codes}
use tcpkali.Expr.{ℤ, pos, negsuc}
use tcpkali.Expr.Decimal.{decimal, length-digits_within_le}
use tcpkali.Expr.Eval.{Outcome, wrote, refused, fault, Field, ptr, uid, marker, Answer, printed}
use tcpkali.Expr.Eval.Fits.{field_size, IsShort}

-- The members of `struct connection` that are read, and its address.
pub record Connection : Type 0 where
  pub address : ℕ
  pub connection_unique_id : ℕ

abbrev pub hex_digit : ℕ → ℕ
hex_digit d = if ltb d 10 then b'0' + d else b'a' + (d - 10)

unfoldable pub hex_within : ℕ → ℕ → Bytes
hex_within zero n = []
hex_within (suc places) n =
    let front = hex_within places (n / 16) in
    if ltb n 16 then hex_digit n ∷ [] else front ++ (hex_digit (n % 16) ∷ [])

abbrev pub pointer : ℕ → Bytes
pointer a = if a == 0 then codes "(nil)" else codes "0x" ++ hex_within 16 a

-- The token of a marker, 16 zeros and a point.
abbrev pub marker_text : Bytes
marker_text = codes "TCPKaliMsgTS-0000000000000000."

-- `(long)`.
abbrev pub to_long : ℕ → ℤ
to_long n = if ltb n (2 ^ 63) then pos n else negsuc (2 ^ 64 - 1 - n)

abbrev pub fitted : Option Bytes → Outcome
fitted none = refused
fitted (some s) = wrote s

unfoldable pub expr_callback : Connection → Field → ℕ → Outcome × ℤ
unfolding hex_within
expr_callback conn ptr size = (fitted (printed (pointer conn.address) size), to_long conn.address)
expr_callback conn uid size =
    (fitted (printed (decimal conn.connection_unique_id) size), to_long conn.connection_unique_id)
expr_callback conn marker size =
    if ltb size (length marker_text) then (fault, pos 0) else (wrote marker_text, pos 0)

-- The callback as `eval_expression` calls it, in a state `W` that it does not change.
unfoldable pub answer_field : {W : Type 0} → Connection → Field → ℕ → ℕ → W → Answer W
unfolding expr_callback
answer_field conn f at size w = record {
  outcome = (expr_callback conn f size).0;
  value = some (expr_callback conn f size).1;
  world = w;
}

-- What the fields stand for.
abbrev pub Says : Connection → Field → Bytes → Type 0
Says conn ptr s = s ≡ pointer conn.address
Says conn uid s = s ≡ decimal conn.connection_unique_id
Says conn marker s = s ≡ marker_text

length-hex_within_le : (places k n : ℕ) → n < 16 ^ suc k → length (hex_within places n) ≤ suc k
unfolding hex_within
length-hex_within_le zero k n hi = omega arith
length-hex_within_le (suc places) zero n hi = ground arith
length-hex_within_le (suc places) (suc k) n hi =
    let front = hex_within places (n / 16) in
    ground (
      arith,
      length-append front (hex_digit (n % 16) ∷ []),
      length-hex_within_le places k (n / 16) (omega (arith, pow_16 k)),
    )
  where
    pow_16 : (k : ℕ) → 16 ^ suc (suc k) ≡ 16 * 16 ^ suc k
    pow_16 k = omega arith

length-pointer : (a : ℕ) → a < 2 ^ 47 → length (pointer a) ≤ 15
length-pointer a h = ground (arith, length-hex_within_le 16 12 a)

printed_whole : (s : Bytes) (size : ℕ) → length s < size → printed s size ≡ some s
printed_whole s size h = ground arith

to_long_small : (n : ℕ) → n < 2 ^ 63 → to_long n ≡ pos n
to_long_small n h = ground arith

-- For an address of user space, below 2 ^ 47, and a number of a connection of at most 15 digits the
-- callback writes each field in full into any buffer of the size that the grammar estimates for it.
pub answer_field_fits :
    {W : Type 0} (conn : Connection)
    → conn.address < 2 ^ 47
    → conn.connection_unique_id < 10 ^ 15
    → (f : Field) (at size : ℕ) (w : W) → field_size f ≤ size
    → (s : Bytes) × ((answer_field conn f at size w).outcome ≡ wrote s)
      × (length s ≤ field_size f)
      × Says conn f s
      × IsShort (answer_field conn f at size w).value
unfolding answer_field expr_callback
answer_field_fits conn user short ptr at size w room =
    let len = length-pointer conn.address user in
    (
      pointer conn.address,
      rw (printed_whole (pointer conn.address) size (omega (arith, len, room))) refl,
      omega (arith, len),
      refl,
      rw (to_long_small conn.address (omega arith)) (omega arith),
    )
answer_field_fits conn user short uid at size w room =
    let len = length-digits_within_le 20 14 conn.connection_unique_id short in
    (
      decimal conn.connection_unique_id,
      rw (printed_whole (decimal conn.connection_unique_id) size (omega (arith, len, room))) refl,
      omega (arith, len),
      refl,
      rw (to_long_small conn.connection_unique_id (omega arith)) (omega arith),
    )
answer_field_fits conn user short marker at size w room =
    rw (le→not-ltb size 30 room) (marker_text, refl, omega arith, refl, omega arith)
