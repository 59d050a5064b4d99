-- ===== src/Wgconfig/Roundtrip/Lines.antt =====
-- How `parse` of internal/wgconfig/profile.go reads a line that `NormalizedWGQuick` writes.
use nft_firewall_v.Prelude.{
  ℕ, true, false, ◌≡◌, refl, List, [], ◌∷◌, ◌++◌, some, ◌==◌, arith, all_in, is_alnum, &&-eq-true,
  guard_against,
}
use nft_firewall_v.Wgconfig.Text.{
  is_empty, is_space, trim_left, trim_right, trim, before, after, cut, has_prefix,
}
use nft_firewall_v.Wgconfig.Text.Laws.{trim_right-append}
use nft_firewall_v.Wgconfig.Text.Plain.{IsClean}
use nft_firewall_v.Wgconfig.{Library}
use nft_firewall_v.Wgconfig.Parse.{
  Reading, is_skipped, is_header, identity_of, store_field, read_field, read_line,
}
use nft_firewall_v.Wgconfig.Print.{field_line}

-- A key is letters and digits.
unfoldable pub IsKey : List ℕ → Type 0
IsKey k = (is_empty k ≡ false) × (all_in is_alnum k ≡ true)

alnum_plain :
    (c : ℕ)
    → is_alnum c ≡ true
    → (is_space c ≡ false)
      × ((c == b'=') ≡ false)
      × ((c == b'#') ≡ false)
      × ((c == b';') ≡ false)
      × ((c == b'[') ≡ false)
unfolding is_space
alnum_plain c h =
    (ground (arith, h), ground (arith, h), ground (arith, h), ground (arith, h), ground (arith, h))

trim_right-key : (k : List ℕ) → all_in is_alnum k ≡ true → trim_right (k ++ (32 ∷ [])) ≡ k
unfolding trim_right is_space is_empty all_in
trim_right-key [] h = refl
trim_right-key (c ∷ cs) h =
    let parts = &&-eq-true (is_alnum c) _ h in
    rw (trim_right-key cs parts.1, (alnum_plain c parts.0).0) refl

before-key :
    (k rest : List ℕ)
    → all_in is_alnum k ≡ true
    → before b'=' (k ++ (32 ∷ b'=' ∷ rest)) ≡ k ++ (32 ∷ [])
unfolding before all_in
before-key [] rest h = refl
before-key (c ∷ cs) rest h =
    let parts = &&-eq-true (is_alnum c) _ h in
    rw (before-key cs rest parts.1, (alnum_plain c parts.0).1) refl

after-key :
    (k rest : List ℕ) → all_in is_alnum k ≡ true → after b'=' (k ++ (32 ∷ b'=' ∷ rest)) ≡ some rest
unfolding after all_in
after-key [] rest h = refl
after-key (c ∷ cs) rest h =
    let parts = &&-eq-true (is_alnum c) _ h in
    rw ((alnum_plain c parts.0).1, after-key cs rest parts.1) refl

cut-line : (k v : List ℕ) → IsKey k → cut b'=' (field_line k v) ≡ some (k ++ (32 ∷ []), 32 ∷ v)
unfolding cut field_line IsKey
cut-line k v h =
    rw (cut, after-key k (32 ∷ v) h.1) (λ i. some (before-key k (32 ∷ v) h.1 i, 32 ∷ v))

-- A line begins with a letter or a digit.
first_char :
    (k rest : List ℕ)
    → IsKey k
    → (trim_left (k ++ rest) ≡ k ++ rest)
      × (is_skipped (k ++ rest) ≡ false)
      × (is_header (k ++ rest) ≡ false)
unfolding IsKey trim_left is_skipped is_header is_empty has_prefix all_in
first_char [] rest h = let e = h.0 in absurd (cc)
first_char (c ∷ cs) rest h =
    let parts = &&-eq-true (is_alnum c) _ h.1 in
    let plain = alnum_plain c parts.0 in
    (rw plain.0 refl, rw (plain.2, plain.3) refl, rw plain.4 refl)

trim-line : (k v : List ℕ) → IsKey k → IsClean v → trim (field_line k v) ≡ field_line k v
unfolding trim field_line IsClean is_empty trim_right
trim-line k v h c = rw (first_char k (32 ∷ b'=' ∷ 32 ∷ v) h).0 (
    trim_right-append k (32 ∷ b'=' ∷ 32 ∷ v) refl
      (trim_right-append (32 ∷ b'=' ∷ 32 ∷ []) v c.0 c.2))

trim-key : (k : List ℕ) → IsKey k → trim (k ++ (32 ∷ [])) ≡ k
unfolding trim IsKey
trim-key k h = rw (first_char k (32 ∷ []) h).0 (trim_right-key k h.1)

trim-value : (v : List ℕ) → IsClean v → trim (32 ∷ v) ≡ v
unfolding trim trim_left is_space IsClean
trim-value v c = rw c.1 c.2

module _ (L : Library) where
  -- A line of a field stores its value.
  pub read_line-field :
      (r : Reading L) (k v : List ℕ)
      → IsKey k
      → IsClean v
      → is_empty r.section ≡ false
      → read_line L true r (trim (field_line k v))
        ≡ store_field L true r (identity_of r.section k) v
  unfolding read_line read_field field_line guard_against
  read_line-field r k v h c there =
      let chars = first_char k (32 ∷ b'=' ∷ 32 ∷ v) h in
      rw (trim-line k v h c, chars.1, chars.2, there, cut-line k v h, trim-key k h, trim-value v c)
        refl
