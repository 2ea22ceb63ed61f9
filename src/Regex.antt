-- ===== src/Regex.antt =====
-- src/tcpkali_regex.h and src/tcpkali_regex.c: regular expressions from which random strings are
-- made. The tree of `struct tregex`, whose arrays of pointers are lists here; Build has the
-- functions that make it and Eval the one that makes a string.
pub mod Build
pub mod Eval
pub mod Matches
pub mod Sized
pub mod Sizes
pub mod Built
pub mod Language
pub mod Full
mod Tests
use tcpkali.Base.{ℕ, zero, suc, ◌+◌, Bytes, Option, none, some}

-- `unsigned char size` and `unsigned char table[256]`.
pub record OneOf : Type 0 where
  pub size : ℕ
  pub table : ℕ → ℕ

mutual
  -- `min_size`, `avg_size`, `max_size` and the member of the union that `kind` tells.
  pub data Regex : Type 0 where
    node : ℕ → ℕ → ℕ → Kind → Regex

  pub data Kind : Type 0 where
    chars : Bytes → Kind
    oneof : OneOf → Kind
    sequence : Regexes → Kind
    alternative : Regexes → Kind
    repeat : Regex → ℕ → ℕ → Kind

  pub data Regexes : Type 0 where
    nil : Regexes
    cons : Regex → Regexes → Regexes

abbrev pub elements : ℕ
elements = 16

abbrev pub min_size : Regex → ℕ
min_size (node lo avg hi k) = lo

abbrev pub avg_size : Regex → ℕ
avg_size (node lo avg hi k) = avg

abbrev pub max_size : Regex → ℕ
max_size (node lo avg hi k) = hi

abbrev pub kind_of : Regex → Kind
kind_of (node lo avg hi k) = k

abbrev pub count : Regexes → ℕ
count nil = 0
count (cons r rs) = suc (count rs)

abbrev pub join_lists : Regexes → Regexes → Regexes
join_lists nil qs = qs
join_lists (cons r rs) qs = cons r (join_lists rs qs)

abbrev pub get_elem? : Regexes → ℕ → Option Regex
get_elem? nil i = none
get_elem? (cons r rs) zero = some r
get_elem? (cons r rs) (suc i) = get_elem? rs i
