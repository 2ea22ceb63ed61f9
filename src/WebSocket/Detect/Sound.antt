-- ===== src/WebSocket/Detect/Sound.antt =====
-- What the detection tells of a buffer that it accepts, and that no buffer of it overflows.
use tcpkali.Base.{
  ℕ, ◌+◌, ◌≤◌, ◌<◌, ◌≡◌, refl, ap, inl, inr, Bool, true, false, ◌||◌, Bytes, [], ◌∷◌, ◌++◌, Option,
  none, some, ltb, ◌==◌, if◌then◌else◌, length, length-append, drop, arith, Bool-cases,
}
use tcpkali.WebSocket.Detect.{
  codes, Rval, not_enough_data, websocket_detected, truncated_input, keyhdr, magic, same_nocase,
  before_newline, ltrim, rtrim, response_head, response, answer, key_value, detect,
}

-- `new_key`, `base64_output` and the caller's `out_buf`.
abbrev pub new_key_size : ℕ
new_key_size = 64

abbrev pub out_buf_size : ℕ
out_buf_size = 200

module _ (accept_of : Bytes → Bytes) where
  -- A detected key fits `new_key` with the magic and its final zero, and the response is its own.
  abbrev pub Outcome : Rval → Bytes → Type 0
  Outcome websocket_detected out =
      (key : Bytes) × (1 ≤ length key)
      × (length key ≤ 26)
      × (length (key ++ magic) + 1 ≤ new_key_size)
      × (out ≡ response accept_of key)
  Outcome _ out = out ≡ []

  answer-Outcome : (key : Bytes) → let (r, out) = answer accept_of key in Outcome r out
  answer-Outcome key = elim (Bool-cases (ltb (length key) 1 || ltb 26 (length key))) [
    | inl bad ↦ rw bad refl
    | inr good ↦
        rw good (key, ground arith, ground arith, ground (arith, length-append key magic), refl)
  ]

  key_value-Outcome : (cs : Bytes) → let (r, out) = key_value accept_of cs in Outcome r out
  unfolding key_value
  key_value-Outcome cs = go (before_newline (if ltb 30 (length cs) then 30 else length cs) cs)
    where
      go :
          (o : Option Bytes)
          → let (r, out) : Rval × Bytes = elim o [
            | none ↦ (truncated_input, [])
            | some line ↦ answer accept_of (rtrim (ltrim line))
          ] in
            Outcome r out
      go none = refl
      go (some line) = answer-Outcome (rtrim (ltrim line))

  abbrev OutcomeOf : Rval × Bytes → Type 0
  OutcomeOf p = Outcome p.0 p.1

  if_Outcome :
      (b : Bool) (x y : Rval × Bytes) → OutcomeOf x → OutcomeOf y → OutcomeOf (if b then x else y)
  if_Outcome true x y h k = h
  if_Outcome false x y h k = k

  -- Whatever arrives, a detected key has 1 to 26 bytes and fits `new_key` with the magic behind it,
  -- and the response is that of this key; with any other result nothing is put into the response.
  pub detect-Outcome : (cs : Bytes) → Outcome (detect accept_of cs).0 (detect accept_of cs).1
  unfolding detect
  detect-Outcome [] = refl
  detect-Outcome (c ∷ []) =
      if_Outcome (c == b'\n') (truncated_input, []) (not_enough_data, []) refl refl
  detect-Outcome (c ∷ d ∷ cs) =
      let after = drop (length keyhdr) (d ∷ cs) in
      let found = same_nocase (d ∷ cs) keyhdr in
      let matched = if found then key_value accept_of after else detect accept_of cs in
      let short = ltb (length (d ∷ cs)) (length keyhdr) in
      let at_newline : Rval × Bytes = if short then (truncated_input, []) else matched in
      if_Outcome (c == b'\n') at_newline (detect accept_of (d ∷ cs))
        (if_Outcome short (truncated_input, []) matched refl
          (if_Outcome found (key_value accept_of after) (detect accept_of cs)
            (key_value-Outcome after) (detect-Outcome cs)))
        (detect-Outcome (d ∷ cs))

  length-response :
      (key : Bytes) → length (response accept_of key) ≡ 101 + length (accept_of (key ++ magic))
  length-response key = omega (
    arith,
    length-append response_head (accept_of (key ++ magic) ++ codes "\r\n\r\n"),
    length-append (accept_of (key ++ magic)) (codes "\r\n\r\n"),
  )

  Outcome-bound :
      ((k : Bytes) → length (accept_of k) ≤ 28)
      → (r : Rval) (out : Bytes) → Outcome r out
      → length out < out_buf_size
  Outcome-bound short websocket_detected out (key, _, _, _, e) =
      omega (arith, ap length e, length-response key, short (key ++ magic))
  Outcome-bound short _ out e = omega (arith, ap length e)

  -- With a base64 text of at most 28 bytes, as for a digest of 20, the response is shorter than
  -- the 200 bytes of the caller's buffer, whatever arrives.
  pub length-detect :
      ((k : Bytes) → length (accept_of k) ≤ 28)
      → (cs : Bytes) → length (detect accept_of cs).1 < out_buf_size
  length-detect short cs =
      Outcome-bound short (detect accept_of cs).0 (detect accept_of cs).1 (detect-Outcome cs)
