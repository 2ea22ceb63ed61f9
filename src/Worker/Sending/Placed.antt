-- ===== src/Worker/Sending/Placed.antt =====
-- Where a connection stands in its data: the bytes that went out are the contents once and then the
-- body again and again, up to `write_offset`.
use tcpkali.Base.{
  ℕ, zero, suc, ◌+◌, ◌^◌, ◌≤◌, ◌<◌, ◌≡◌, refl, sym, ap, ◌∙◌, Bytes, [], ◌∷◌, ◌++◌, append-nil,
  append_assoc, length, take, drop, length-append, length-take, length-drop, arith,
}
use tcpkali.Transport.Payload.{DataSpec, total_size, times}
use tcpkali.Worker.Traffic.{wide_add}

pub record Placed (d : DataSpec) (offset bytes : ℕ) (sent : Bytes) : Type 0 where
  pub cut :
      (k : ℕ) × (sent ++ drop offset d.contents
        ≡ d.contents ++ times k (drop d.once_size d.contents))
  pub within : offset ≤ total_size d
  pub counted : bytes ≡ length sent
  pub early : length sent ≤ d.once_size → offset ≡ length sent
  pub late : d.once_size ≤ length sent → d.once_size ≤ offset
  pub once_within : d.once_size ≤ total_size d
  pub hdr_within : d.ws_hdr_size ≤ d.once_size

take-drop : (n : ℕ) (s : Bytes) → take n s ++ drop n s ≡ s
take-drop zero s = refl
take-drop (suc n) [] = refl
take-drop (suc n) (c ∷ s) = ap (◌∷◌ c) (take-drop n s)

drop_all : (s : Bytes) → drop (length s) s ≡ []
drop_all [] = refl
drop_all (c ∷ s) = drop_all s

drop_none : (n : ℕ) → drop {A = ℕ} n [] ≡ []
drop_none zero = refl
drop_none (suc n) = refl

suc_plus : (m n : ℕ) → suc m + n ≡ suc (m + n)
suc_plus m n = omega arith

drop-drop : (m n : ℕ) (s : Bytes) → drop n (drop m s) ≡ drop (m + n) s
drop-drop zero n s = ap (λ k. drop k s) (zero_plus n)
  where
    zero_plus : (k : ℕ) → k ≡ 0 + k
    zero_plus k = omega arith
drop-drop (suc m) n [] = drop_none n ∙ sym (drop_none (suc m + n))
drop-drop (suc m) n (c ∷ s) = drop-drop m n s ∙ sym (ap (λ k. drop k (c ∷ s)) (suc_plus m n))

length-taken :
    (n offset : ℕ) (s : Bytes) → offset + n ≤ length s → length (take n (drop offset s)) ≡ n
length-taken n offset s h = omega (arith, length-take n (drop offset s), length-drop offset s)

-- A write from where the connection stands.
pub advance :
    (d : DataSpec) (offset bytes n : ℕ) (sent : Bytes)
    → offset + n ≤ total_size d
    → bytes + n < 2 ^ 64
    → Placed d offset bytes sent
    → Placed d (offset + n) (wide_add bytes n) (sent ++ take n (drop offset d.contents))
advance d offset bytes n sent room small p =
    let all = length-append sent (take n (drop offset d.contents)) in
    let some = length-taken n offset d.contents room in
    record {
      cut = (
        p.cut.0,
        append_assoc sent _ _
            ∙ ap (◌++◌ sent) (
                ap (◌++◌ (take n (drop offset d.contents))) (sym (drop-drop offset n d.contents))
                ∙ take-drop n (drop offset d.contents))
            ∙ p.cut.1,
      );
      within = room;
      counted = omega (arith, all, some, p.counted);
      early = λ h. grind (arith, all, some);
      late = λ h. grind (arith, all, some);
      once_within = p.once_within;
      hdr_within = p.hdr_within;
    }

times-back : (k : ℕ) (s : Bytes) → times k s ++ s ≡ times (suc k) s
times-back zero s = sym (append-nil s)
times-back (suc k) s = append_assoc s (times k s) s ∙ ap (◌++◌ s) (times-back k s)

-- At the end of the buffer the body begins again.
pub restart :
    (d : DataSpec) (offset bytes : ℕ) (sent : Bytes)
    → offset ≡ total_size d
    → d.once_size ≤ bytes
    → Placed d offset bytes sent
    → Placed d d.once_size bytes sent
restart d offset bytes sent ends over p = record {
  cut = (
    suc p.cut.0,
    ap (λ s. s ++ drop d.once_size d.contents)
          (sym (append-nil sent)
            ∙ ap (◌++◌ sent) (sym (ap (λ k. drop k d.contents) ends ∙ drop_all d.contents))
            ∙ p.cut.1)
        ∙ append_assoc d.contents _ _
        ∙ ap (◌++◌ d.contents) (times-back p.cut.0 (drop d.once_size d.contents)),
  );
  within = p.once_within;
  counted = p.counted;
  early = λ h. omega (arith, p.counted);
  late = λ h. omega arith;
  once_within = p.once_within;
  hdr_within = p.hdr_within;
}
