-- ===== src/Data/Printable/Bounds.antt =====
-- The suggested buffer is always large enough.
use tcpkali.Base.{
  ℕ, ◌+◌, ◌*◌, ◌≤◌, ◌<◌, ◌≡◌, Bool, true, false, Bytes, [], ◌∷◌, ◌++◌, Option, none, some, leb,
  ◌==◌, if◌then◌else◌, length, length-append, arith,
}
use tcpkali.Data.Printable.{
  suggested_buffer_size, refused, text, escape_byte, highlight_range, is_at, escape_all, quote_mark,
  printable_data_highlight,
}

length-escape_byte : (quote last : Bool) (c : ℕ) → length (escape_byte quote last c) ≤ 4
unfolding escape_byte
length-escape_byte quote last c = ground arith

length-quote_mark : (quote : Bool) → length (quote_mark quote) ≤ 1
length-quote_mark true = omega arith
length-quote_mark false = omega arith

module _ (highlight normal : Bytes) where
  -- The attributes that are still to come from offset `i` on.
  abbrev start_left : Option (ℕ × ℕ) → ℕ → ℕ
  start_left none i = 0
  start_left (some r) i = if leb i r.0 then length highlight else 0

  abbrev end_left : Option (ℕ × ℕ) → ℕ → ℕ
  end_left none i = 0
  end_left (some r) i = if leb i r.1 then length normal else 0

  start_step :
      (range : Option (ℕ × ℕ)) (i : ℕ)
      → length (if is_at (λ r. r.0) range i then highlight else []) + start_left range (i + 1)
        ≤ start_left range i
  start_step none i = omega arith
  start_step (some (a, b)) i = ground arith

  end_step :
      (range : Option (ℕ × ℕ)) (i : ℕ)
      → length (if is_at (λ r. r.1) range i then normal else []) + end_left range (i + 1)
        ≤ end_left range i
  end_step none i = omega arith
  end_step (some (a, b)) i = ground arith

  length-escape_all :
      (quote : Bool) (range : Option (ℕ × ℕ)) (i : ℕ) (cs : Bytes)
      → length (escape_all highlight normal quote range i cs)
        ≤ 4 * length cs + start_left range i + end_left range i
  unfolding escape_all
  length-escape_all quote range i [] = omega arith
  length-escape_all quote range i (c ∷ cs) =
      let before = if is_at (λ r. r.0) range i then highlight else [] in
      let own = escape_byte quote (length cs == 0) c in
      let after = if is_at (λ r. r.1) range i then normal else [] in
      let more = escape_all highlight normal quote range (i + 1) cs in
      omega (
        arith,
        length-append before (own ++ (after ++ more)),
        length-append own (after ++ more),
        length-append after more,
        start_step range i,
        end_step range i,
        length-escape_byte quote (length cs == 0) c,
        length-escape_all quote range (i + 1) cs,
      )

  start_left-le :
      (range : Option (ℕ × ℕ))
      → start_left range 0 + end_left range 0 ≤ length highlight + length normal
  start_left-le none = omega arith
  start_left-le (some (a, b)) = ground arith

  -- With a buffer of the suggested size the text fits with its final zero, whatever is highlighted,
  -- as long as the two attributes take 32 bytes at most. With a smaller buffer nothing is written.
  pub printable_data_total :
      (buf_size : ℕ) (cs : Bytes) (quote : Bool) (offset len : ℕ)
      → length highlight + length normal ≤ 32
      → (suggested_buffer_size (length cs) ≤ buf_size
          → (out : Bytes) × (printable_data_highlight highlight normal buf_size cs quote offset len
              ≡ text out)
            × (length out + 1 ≤ buf_size))
        × (buf_size < suggested_buffer_size (length cs)
            → printable_data_highlight highlight normal buf_size cs quote offset len ≡ refused)
  unfolding printable_data_highlight
  printable_data_total buf_size cs quote offset len h =
      let range = highlight_range (length cs) offset len in
      let body = escape_all highlight normal quote range 0 cs in
      let mark = quote_mark quote in
      let fits : length (mark ++ (body ++ mark)) ≤ 4 * length cs + 2 + 32 = omega (
        arith,
        length-append mark (body ++ mark),
        length-append body mark,
        length-quote_mark quote,
        length-escape_all quote range 0 cs,
        start_left-le range,
      ) in
      (
        λ big. (mark ++ (body ++ mark), ground (arith, fits), omega (arith, fits)),
        λ small. ground arith,
      )
