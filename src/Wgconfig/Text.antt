-- ===== src/Wgconfig/Text.antt =====
-- What internal/wgconfig/profile.go uses of `strings` and `bufio`. A text is its list of code
-- points; one that is not UTF-8 is not modelled.
pub mod Laws
pub mod Plain
pub mod Order
use nft_firewall_v.Prelude.{
  ℕ, ◌+◌, String, Bool, true, false, not, ◌&&◌, ◌||◌, List, [], ◌∷◌, ◌++◌, Option, none, some,
  Outcome, ok, err, if◌then◌else◌, ◌==◌, ltb, leb, all_in,
}

-- `len` of a text, in bytes.
unfoldable pub size : List ℕ → ℕ
size [] = 0
size (c ∷ cs) =
    (if ltb c 128 then 1 else if ltb c 2048 then 2 else if ltb c 65536 then 3 else 4) + size cs

unfoldable pub is_empty : List ℕ → Bool
is_empty [] = true
is_empty (c ∷ cs) = false

unfoldable pub text_eq : List ℕ → List ℕ → Bool
text_eq [] [] = true
text_eq [] (d ∷ ds) = false
text_eq (c ∷ cs) [] = false
text_eq (c ∷ cs) (d ∷ ds) = c == d && text_eq cs ds

-- A key of a Go map whose values are `true`.
unfoldable pub has : List ℕ → List (List ℕ) → Bool
unfolding text_eq
has t [] = false
has t (s ∷ ss) = text_eq t s || has t ss

-- `a < b`; code point order and UTF-8 byte order agree.
unfoldable pub text_lt : List ℕ → List ℕ → Bool
text_lt xs [] = false
text_lt [] (y ∷ ys) = true
text_lt (x ∷ xs) (y ∷ ys) = ltb x y || (x == y && text_lt xs ys)

-- `unicode.IsSpace`
unfoldable pub is_space : ℕ → Bool
is_space c =
    (leb 9 c && leb c 13)
    || c == 32
    || c == 133
    || c == 160
    || c == 5760
    || (leb 8192 c && leb c 8202)
    || c == 8232
    || c == 8233
    || c == 8239
    || c == 8287
    || c == 12288

unfoldable pub trim_left : List ℕ → List ℕ
unfolding is_space
trim_left [] = []
trim_left (c ∷ cs) = let rest = trim_left cs in if is_space c then rest else c ∷ cs

unfoldable pub trim_right : List ℕ → List ℕ
unfolding is_space is_empty
trim_right [] = []
trim_right (c ∷ cs) =
    let rest = trim_right cs in if is_space c && is_empty rest then [] else c ∷ rest

-- `strings.TrimSpace`
unfoldable pub trim : List ℕ → List ℕ
unfolding trim_left trim_right
trim t = trim_right (trim_left t)

-- `strings.HasPrefix` and `strings.HasSuffix` of one character.
unfoldable pub has_prefix : ℕ → List ℕ → Bool
has_prefix p [] = false
has_prefix p (c ∷ cs) = c == p

unfoldable pub has_suffix : ℕ → List ℕ → Bool
unfolding is_empty
has_suffix p [] = false
has_suffix p (c ∷ cs) = let rest = has_suffix p cs in if is_empty cs then c == p else rest

-- `strings.TrimPrefix` and `strings.TrimSuffix` of one character.
unfoldable pub trim_prefix : ℕ → List ℕ → List ℕ
trim_prefix p [] = []
trim_prefix p (c ∷ cs) = if c == p then cs else c ∷ cs

unfoldable pub trim_suffix : ℕ → List ℕ → List ℕ
unfolding is_empty
trim_suffix p [] = []
trim_suffix p (c ∷ cs) =
    let rest = trim_suffix p cs in if is_empty cs && c == p then [] else c ∷ rest

unfoldable pub before : ℕ → List ℕ → List ℕ
before sep [] = []
before sep (c ∷ cs) = let rest = before sep cs in if c == sep then [] else c ∷ rest

unfoldable pub after : ℕ → List ℕ → Option (List ℕ)
after sep [] = none
after sep (c ∷ cs) = let rest = after sep cs in if c == sep then some cs else rest

-- `strings.Cut` at the first separator.
unfoldable pub cut : ℕ → List ℕ → Option (List ℕ × List ℕ)
unfolding before after
cut sep t = elim (after sep t) [ none ↦ none | some rest ↦ some (before sep t, rest) ]

unfoldable pub push : ℕ → List (List ℕ) → List (List ℕ)
push c [] = (c ∷ []) ∷ []
push c (t ∷ ts) = (c ∷ t) ∷ ts

-- `strings.Split` at one character.
unfoldable pub split : ℕ → List ℕ → List (List ℕ)
unfolding push
split sep [] = [] ∷ []
split sep (c ∷ cs) = let rest = split sep cs in if c == sep then [] ∷ rest else push c rest

-- `strings.Join` with ", ".
unfoldable pub join : List (List ℕ) → List ℕ
join [] = []
join (t ∷ []) = t
join (t ∷ s ∷ ss) = t ++ (b',' ∷ 32 ∷ join (s ∷ ss))

-- The end of a text is a line only where something stands after the last line feed.
unfoldable pub drop_end : List (List ℕ) → List (List ℕ)
unfolding is_empty
drop_end [] = []
drop_end (t ∷ []) = if is_empty t then [] else t ∷ []
drop_end (t ∷ s ∷ ss) = t ∷ drop_end (s ∷ ss)

unfoldable pub drop_each : List (List ℕ) → List (List ℕ)
unfolding trim_suffix
drop_each [] = []
drop_each (t ∷ ts) = trim_suffix 13 t ∷ drop_each ts

-- The lines of `bufio.ScanLines`, without the carriage return that may end one.
unfoldable pub scan_lines : List ℕ → List (List ℕ)
unfolding split drop_end drop_each
scan_lines t = drop_each (drop_end (split 10 t))

-- `WriteString` of each line.
unfoldable pub write_lines : List (List ℕ) → List ℕ
write_lines [] = []
write_lines (t ∷ ts) = t ++ (10 ∷ write_lines ts)
