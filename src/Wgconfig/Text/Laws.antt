-- ===== src/Wgconfig/Text/Laws.antt =====
-- Laws of splitting, joining and trimming texts.
use nft_firewall_v.Prelude.{
  ℕ, Bool, true, false, not, ◌&&◌, ◌≡◌, ◌∙◌, refl, ap, List, [], ◌∷◌, ◌++◌, ◌==◌, arith, All,
  &&-eq-true,
}
use nft_firewall_v.Wgconfig.Text.{
  is_empty, is_space, trim_right, trim_suffix, push, split, drop_end, drop_each, scan_lines,
  write_lines,
}

unfoldable pub lacks : ℕ → List ℕ → Bool
lacks sep [] = true
lacks sep (c ∷ cs) = not (c == sep) && lacks sep cs

split-lacks :
    (sep : ℕ) (t rest : List ℕ)
    → lacks sep t ≡ true
    → split sep (t ++ (sep ∷ rest)) ≡ t ∷ split sep rest
unfolding lacks split push
split-lacks sep [] rest h = ground arith
split-lacks sep (c ∷ cs) rest h =
    let parts = &&-eq-true (not (c == sep)) _ h in
    rw (split-lacks sep cs rest parts.1) (ground (arith, parts.0))

pub split_one : (sep : ℕ) (t : List ℕ) → lacks sep t ≡ true → split sep t ≡ t ∷ []
unfolding lacks split push
split_one sep [] h = refl
split_one sep (c ∷ cs) h =
    let parts = &&-eq-true (not (c == sep)) _ h in
    rw (split_one sep cs parts.1) (ground (arith, parts.0))

pub split_comma :
    (t rest : List ℕ) → lacks b',' t ≡ true → split b',' (t ++ (b',' ∷ rest)) ≡ t ∷ split b',' rest
split_comma t rest h = split-lacks b',' t rest h

-- Neither a line feed nor a carriage return.
unfoldable pub IsLine : List ℕ → Type 0
IsLine t = (lacks 10 t ≡ true) × (lacks 13 t ≡ true)

trim_suffix-lacks : (t : List ℕ) → lacks 13 t ≡ true → trim_suffix 13 t ≡ t
unfolding lacks trim_suffix
trim_suffix-lacks [] h = refl
trim_suffix-lacks (c ∷ cs) h =
    let parts = &&-eq-true (not (c == 13)) _ h in
    rw (trim_suffix-lacks cs parts.1) (ground (arith, parts.0))

drop_end_snoc : (ts : List (List ℕ)) → drop_end (ts ++ ([] ∷ [])) ≡ ts
unfolding drop_end is_empty
drop_end_snoc [] = refl
drop_end_snoc (t ∷ []) = refl
drop_end_snoc (t ∷ s ∷ ss) = ap (λ us. t ∷ us) (drop_end_snoc (s ∷ ss))

pub split_write : (ts : List (List ℕ)) → All IsLine ts → split 10 (write_lines ts) ≡ ts ++ ([] ∷ [])
unfolding split write_lines IsLine
split_write [] h = refl
split_write (t ∷ ts) h =
    split-lacks 10 t (write_lines ts) (h.0.0) ∙ ap (λ us. t ∷ us) (split_write ts h.1)

drop_each_lines : (ts : List (List ℕ)) → All IsLine ts → drop_each ts ≡ ts
unfolding drop_each IsLine
drop_each_lines [] h = refl
drop_each_lines (t ∷ ts) h = rw (trim_suffix-lacks t h.0.1, drop_each_lines ts h.1) refl

-- Lines that are written are the lines that are read.
pub scan_write : (ts : List (List ℕ)) → All IsLine ts → scan_lines (write_lines ts) ≡ ts
unfolding scan_lines
scan_write ts h = rw (split_write ts h, drop_end_snoc ts) (drop_each_lines ts h)

append_there : (ts us : List ℕ) → is_empty us ≡ false → is_empty (ts ++ us) ≡ false
unfolding is_empty
append_there [] us h = h
append_there (c ∷ cs) us h = refl

and_false : (b : Bool) → (b && false) ≡ false
and_false b = ground arith

pub trim_right-append :
    (ts us : List ℕ) → is_empty us ≡ false → trim_right us ≡ us → trim_right (ts ++ us) ≡ ts ++ us
unfolding trim_right
trim_right-append [] us h k = k
trim_right-append (c ∷ cs) us h k =
    rw (trim_right-append cs us h k, append_there cs us h, and_false (is_space c)) refl

pub lacks-append :
    (sep : ℕ) (ts us : List ℕ)
    → lacks sep ts ≡ true
    → lacks sep us ≡ true
    → lacks sep (ts ++ us) ≡ true
unfolding lacks
lacks-append sep [] us h k = k
lacks-append sep (c ∷ cs) us h k =
    let parts = &&-eq-true (not (c == sep)) _ h in rw parts.0 (lacks-append sep cs us parts.1 k)
