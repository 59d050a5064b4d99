-- ===== src/Prelude/Text.antt =====
-- Texts as the Go code reads them: equality, and the byte order of `<` on strings.
use Prim.Native.Nat.{ℕ}
use Prim.Native.Char.{code}
use Prim.Native.String.{String}
use mathlib.Core.Bool.{Bool, true, false, ◌||◌, ◌&&◌}
use mathlib.Core.List.{List, [], ◌∷◌}
use text.Mathlib.Text
use nft_firewall_v.Prelude.Tests.{ltb, leb, ◌==◌}
use nft_firewall_v.Prelude.Lists.{length}

abbrev pub str_eq : String → String → Bool
str_eq = Text.◌==◌

-- The code points of a text; the texts that the program compares by parts are ASCII.
abbrev pub codes : String → List ℕ
codes String.[] = []
codes (String.◌∷◌ c s) = code c ∷ codes s

codes_lt : List ℕ → List ℕ → Bool
codes_lt xs [] = false
codes_lt [] (y ∷ ys) = true
codes_lt (x ∷ xs) (y ∷ ys) = ltb x y || (x == y && codes_lt xs ys)

-- `a < b` on Go strings. Code point order and UTF-8 byte order agree.
unfoldable pub str_lt : String → String → Bool
unfolding codes_lt
str_lt a b = codes_lt (codes a) (codes b)

-- Character classes of the program's patterns.
abbrev pub is_alnum : ℕ → Bool
is_alnum c = (leb b'A' c && leb c b'Z') || (leb b'a' c && leb c b'z') || (leb b'0' c && leb c b'9')

unfoldable pub all_in : (ℕ → Bool) → List ℕ → Bool
all_in p [] = true
all_in p (c ∷ cs) = p c && all_in p cs

-- `^[first][rest]{0,limit}$`
matches_codes : (ℕ → Bool) → (ℕ → Bool) → ℕ → List ℕ → Bool
matches_codes first rest limit [] = false
matches_codes first rest limit (c ∷ cs) = first c && leb (length cs) limit && all_in rest cs

unfoldable pub matches : (ℕ → Bool) → (ℕ → Bool) → ℕ → String → Bool
unfolding matches_codes all_in
matches first rest limit s = matches_codes first rest limit (codes s)
