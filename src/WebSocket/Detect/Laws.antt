-- ===== src/WebSocket/Detect/Laws.antt =====
-- What the detection accepts, and the size of its response.
use tcpkali.Base.{
  ℕ, zero, suc, ◌+◌, ◌≤◌, ◌<◌, ◌≡◌, refl, ap, ◌∙◌, ◌≢◌, true, false, Bytes, List, [], ◌∷◌, ◌++◌,
  some, ltb, if◌then◌else◌, length, length-replicate, length-append, drop, replicate, arith,
  le→not-ltb,
}
use tcpkali.WebSocket.Detect.{
  websocket_detected, truncated_input, keyhdr, same_nocase, before_newline, ltrim, rtrim, response,
  answer, key_value, detect,
}

abbrev pub NoNewline : Bytes → Type 0
NoNewline [] = Unit
NoNewline (c ∷ cs) = (c ≢ b'\n') × NoNewline cs

-- Neither a newline nor one of the bytes that `rtrim` drops.
abbrev pub Clean : Bytes → Type 0
Clean [] = Unit
Clean (c ∷ cs) = ((c ≢ b'\n') × (c ≢ b'\r') × (c ≢ b' ')) × Clean cs

-- The lines of a request in front of the one with the key: not empty, with no newline inside, and
-- other headers.
abbrev pub OtherLines : List Bytes → Type 0
OtherLines [] = Unit
OtherLines (l ∷ ls) = (l ≢ []) × NoNewline l × (same_nocase l keyhdr ≡ false) × OtherLines ls

abbrev pub lines_then : List Bytes → Bytes → Bytes
lines_then [] tail = tail
lines_then (l ∷ ls) tail = l ++ (b'\n' ∷ lines_then ls tail)

same_nocase-newline :
    (l ks x : Bytes)
    → NoNewline ks
    → same_nocase l ks ≡ false
    → same_nocase (l ++ (b'\n' ∷ x)) ks ≡ false
unfolding same_nocase
same_nocase-newline [] [] x n h = cc
same_nocase-newline [] (k ∷ ks) x n h = ground (arith, n.0)
same_nocase-newline (c ∷ l) [] x n h = cc
same_nocase-newline (c ∷ l) (k ∷ ks) x n h = ground (arith, same_nocase-newline l ks x n.1)

same_nocase-append : (h ks x : Bytes) → same_nocase h ks ≡ true → same_nocase (h ++ x) ks ≡ true
unfolding same_nocase
same_nocase-append [] [] [] e = refl
same_nocase-append [] [] (c ∷ x) e = refl
same_nocase-append [] (k ∷ ks) x e = cc
same_nocase-append (c ∷ h) [] x e = refl
same_nocase-append (c ∷ h) (k ∷ ks) x e = ground (arith, same_nocase-append h ks x)

before_newline-append :
    (n : ℕ) (l x : Bytes)
    → NoNewline l
    → length l < n
    → before_newline n (l ++ (b'\n' ∷ x)) ≡ some l
unfolding before_newline
before_newline-append zero l x h b = elim b [ ]
before_newline-append (suc n) [] x h b = refl
before_newline-append (suc n) (c ∷ l) x h b = ground (arith, h.0, before_newline-append n l x h.1)

ltrim-replicate : (n : ℕ) (cs : Bytes) → ltrim (replicate n b' ' ++ cs) ≡ ltrim cs
unfolding ltrim
ltrim-replicate zero cs = refl
ltrim-replicate (suc n) cs = ltrim-replicate n cs

rtrim-Clean : (key : Bytes) → Clean key → rtrim (key ++ (b'\r' ∷ [])) ≡ key
unfolding rtrim
rtrim-Clean [] h = refl
rtrim-Clean (c ∷ []) h = ground (arith, h.0)
rtrim-Clean (c ∷ d ∷ key) h = ground (arith, rtrim-Clean (d ∷ key) h.1)

ltrim-Clean : (key tail : Bytes) → Clean key → 0 < length key → ltrim (key ++ tail) ≡ key ++ tail
unfolding ltrim
ltrim-Clean [] tail h p = elim p [ ]
ltrim-Clean (c ∷ key) tail h p = ground (arith, h.0)

trim-Clean :
    (n : ℕ) (key : Bytes)
    → Clean key
    → 0 < length key
    → rtrim (ltrim (replicate n b' ' ++ (key ++ (b'\r' ∷ [])))) ≡ key
trim-Clean n key h p = rw (ltrim-replicate n, ltrim-Clean key (b'\r' ∷ []) h p) (rtrim-Clean key h)

module _ (accept_of : Bytes → Bytes) where
  detect-NoNewline :
      (l x : Bytes)
      → NoNewline l
      → detect accept_of (l ++ (b'\n' ∷ x)) ≡ detect accept_of (b'\n' ∷ x)
  unfolding detect
  detect-NoNewline [] x h = refl
  detect-NoNewline (c ∷ []) x h = ground (arith, h.0)
  detect-NoNewline (c ∷ d ∷ l) x h = ground (arith, h.0, detect-NoNewline (d ∷ l) x h.1)

  length-lines_then : (ls : List Bytes) (tail : Bytes) → length tail ≤ length (lines_then ls tail)
  length-lines_then [] tail = omega arith
  length-lines_then (l ∷ ls) tail =
      omega (arith, length-append l (b'\n' ∷ lines_then ls tail), length-lines_then ls tail)

  detect_at :
      (d : ℕ) (cs : Bytes)
      → detect accept_of (b'\n' ∷ d ∷ cs) ≡ (
          if ltb (length (d ∷ cs)) 18
          then (truncated_input, [])
          else if same_nocase (d ∷ cs) keyhdr
          then key_value accept_of (drop 18 (d ∷ cs))
          else detect accept_of cs)
  unfolding detect
  detect_at d cs = refl

  detect_other :
      (d : ℕ) (l x : Bytes)
      → same_nocase (d ∷ l) keyhdr ≡ false
      → 18 ≤ length x
      → detect accept_of (b'\n' ∷ d ∷ (l ++ (b'\n' ∷ x))) ≡ detect accept_of (l ++ (b'\n' ∷ x))
  detect_other d l x h e =
      detect_at d (l ++ (b'\n' ∷ x))
      ∙ rw (
        le→not-ltb (length (d ∷ (l ++ (b'\n' ∷ x)))) 18
            (omega (arith, length-append l (b'\n' ∷ x))),
        same_nocase-newline (d ∷ l) keyhdr x (omega arith) h,
      )

  detect-lines_then :
      (ls : List Bytes) (tail : Bytes)
      → OtherLines ls
      → 18 ≤ length tail
      → detect accept_of (b'\n' ∷ lines_then ls tail) ≡ detect accept_of (b'\n' ∷ tail)
  detect-lines_then [] tail h e = refl
  detect-lines_then ([] ∷ ls) tail h e = absurd (h.0 refl)
  detect-lines_then ((d ∷ l) ∷ ls) tail h e =
      detect_other d l (lines_then ls tail) h.2 (omega (arith, length-lines_then ls tail))
      ∙ detect-NoNewline l (lines_then ls tail) h.1.1
      ∙ detect-lines_then ls tail h.3 e

  drop-append : (n : ℕ) (h x : Bytes) → length h ≡ n → drop n (h ++ x) ≡ x
  drop-append zero [] x e = refl
  drop-append zero (c ∷ h) x e = absurd (omega arith)
  drop-append (suc n) [] x e = absurd (omega arith)
  drop-append (suc n) (c ∷ h) x e = drop-append n h x (omega arith)

  key_value-line :
      (value tail : Bytes)
      → NoNewline value
      → length value < 30
      → key_value accept_of (value ++ (b'\n' ∷ tail)) ≡ answer accept_of (rtrim (ltrim value))
  unfolding key_value
  key_value-line value tail h e = ground (
    arith,
    length-append value (b'\n' ∷ tail),
    before_newline-append 30 value tail h,
    before_newline-append (length (value ++ (b'\n' ∷ tail))) value tail h,
  )

  detect_key :
      (hdr value tail : Bytes)
      → same_nocase hdr keyhdr ≡ true
      → length hdr ≡ 18
      → NoNewline value
      → length value < 30
      → detect accept_of (b'\n' ∷ (hdr ++ (value ++ (b'\n' ∷ tail))))
        ≡ answer accept_of (rtrim (ltrim value))
  detect_key [] value tail h l n e = absurd (omega arith)
  detect_key (c ∷ hdr) value tail h l n e =
      let v = value ++ (b'\n' ∷ tail) in
      detect_at c (hdr ++ v)
      ∙ rw
          (
            le→not-ltb (length (c ∷ (hdr ++ v))) 18 (omega (arith, length-append hdr v)),
            same_nocase-append (c ∷ hdr) keyhdr v h,
          )
          (ap (key_value accept_of) (drop-append 18 (c ∷ hdr) v l) ∙ key_value-line value tail n e)

  NoNewline-append : (a b : Bytes) → NoNewline a → NoNewline b → NoNewline (a ++ b)
  NoNewline-append [] b h k = k
  NoNewline-append (c ∷ a) b h k = (h.0, NoNewline-append a b h.1 k)

  NoNewline-replicate : (n : ℕ) → NoNewline (replicate n b' ')
  NoNewline-replicate zero = tt
  NoNewline-replicate (suc n) = (omega arith, NoNewline-replicate n)

  Clean-NoNewline : (key : Bytes) → Clean key → NoNewline key
  Clean-NoNewline [] h = tt
  Clean-NoNewline (c ∷ key) h = (h.0.0, Clean-NoNewline key h.1)

  -- An upgrade request is answered: a first line, other header lines, then the header with the key
  -- (in any case) and some spaces, where the key has 1 to 26 bytes, none of them a space, and the
  -- header's value takes less than 30 bytes with its spaces and the `\r`.
  pub detect_request :
      (line : Bytes) (others : List Bytes) (hdr : Bytes) (spaces : ℕ) (key tail : Bytes)
      → NoNewline line
      → OtherLines others
      → same_nocase hdr keyhdr ≡ true
      → length hdr ≡ 18
      → Clean key
      → 0 < length key
      → length key ≤ 26
      → spaces + length key < 29
      → detect accept_of (
          line
          ++ (b'\n'
              ∷ lines_then others
                  (hdr ++ ((replicate spaces b' ' ++ (key ++ (b'\r' ∷ []))) ++ (b'\n' ∷ tail)))))
        ≡ (websocket_detected, response accept_of key)
  detect_request line others hdr spaces key tail hl ho hh hs hk k0 k26 fits =
      let value = replicate spaces b' ' ++ (key ++ (b'\r' ∷ [])) in
      let plain : NoNewline value =
        NoNewline-append _ _ (NoNewline-replicate spaces)
          (NoNewline-append key _ (Clean-NoNewline key hk) (omega arith)) in
      let short : length value < 30 = omega (
        arith,
        length-append (replicate spaces b' ') (key ++ (b'\r' ∷ [])),
        length-append key (b'\r' ∷ []),
        length-replicate {A = ℕ} spaces b' ',
      ) in
      let body : Bytes = hdr ++ (value ++ (b'\n' ∷ tail)) in
      detect-NoNewline line (lines_then others body) hl
      ∙ detect-lines_then others body ho
          (omega (arith, length-append hdr (value ++ (b'\n' ∷ tail))))
      ∙ detect_key hdr value tail hh hs plain short
      ∙ ap (answer accept_of) (trim-Clean spaces key hk k0)
      ∙ ground arith
