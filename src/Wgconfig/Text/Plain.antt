-- ===== src/Wgconfig/Text/Plain.antt =====
-- Texts without a space or a comma, and the values that are read back as they were written.
use nft_firewall_v.Prelude.{
  ℕ, Bool, true, false, not, ◌&&◌, ◌≡◌, ◌∙◌, refl, sym, ap, subst, List, [], ◌∷◌, ◌++◌, some, ◌==◌,
  ==_iff, arith, All, all_in, &&-eq-true, Bool-cases, inl, inr,
}
use nft_firewall_v.Wgconfig.Text.{
  is_empty, is_space, trim_left, trim_right, trim, push, split, join,
}
use nft_firewall_v.Wgconfig.Text.Laws.{
  lacks, lacks-append, split_one, split_comma, trim_right-append,
}
use nft_firewall_v.Wgconfig.Fields.{trim_items}

-- A text that stands in a list or on a line as it is.
unfoldable pub is_plain : ℕ → Bool
unfolding is_space
is_plain c = not (is_space c) && not (c == b',') && not (c == 0)

unfoldable pub IsPlain : List ℕ → Type 0
unfolding is_plain all_in
IsPlain t = (is_empty t ≡ false) × (all_in is_plain t ≡ true)

-- A value that is read back from its line.
unfoldable pub IsClean : List ℕ → Type 0
IsClean t =
    (is_empty t ≡ false)
    × (trim_left t ≡ t)
    × (trim_right t ≡ t)
    × (lacks 10 t ≡ true)
    × (lacks 13 t ≡ true)
    × (lacks 0 t ≡ true)

plain_not_space : (c : ℕ) → is_plain c ≡ true → is_space c ≡ false
unfolding is_plain
plain_not_space c h = ground (arith, h)

other_char : (c sep : ℕ) → is_plain c ≡ true → is_plain sep ≡ false → not (c == sep) ≡ true
other_char c sep h k = elim (Bool-cases (c == sep)) [
  | inl e ↦ let same : true ≡ false = sym h ∙ ap is_plain ((==_iff c sep).0 e) ∙ k in absurd (cc)
  | inr e ↦ rw e refl
]

plain_lacks :
    (sep : ℕ) (t : List ℕ) → is_plain sep ≡ false → all_in is_plain t ≡ true → lacks sep t ≡ true
unfolding all_in lacks
plain_lacks sep [] h k = refl
plain_lacks sep (c ∷ cs) h k =
    let parts = &&-eq-true (is_plain c) _ k in
    rw (other_char c sep parts.0 h) (plain_lacks sep cs h parts.1)

plain_trim_right : (t : List ℕ) → all_in is_plain t ≡ true → trim_right t ≡ t
unfolding all_in trim_right is_plain
plain_trim_right [] h = refl
plain_trim_right (c ∷ cs) h =
    let parts = &&-eq-true (is_plain c) _ h in
    rw (plain_trim_right cs parts.1, plain_not_space c parts.0) refl

pub plain_trim_left : (t rest : List ℕ) → IsPlain t → trim_left (t ++ rest) ≡ t ++ rest
unfolding IsPlain is_empty all_in trim_left
plain_trim_left [] rest h = (let e = h.0 in absurd (cc))
plain_trim_left (c ∷ cs) rest h =
    let parts = &&-eq-true (is_plain c) _ h.1 in rw (plain_not_space c parts.0) refl

plain_there : (t rest : List ℕ) → IsPlain t → is_empty (t ++ rest) ≡ false
unfolding IsPlain is_empty
plain_there [] rest h = let e = h.0 in absurd (cc)
plain_there (c ∷ cs) rest h = refl

plain_trim_left_all : (t : List ℕ) → IsPlain t → trim_left t ≡ t
unfolding IsPlain is_empty all_in trim_left
plain_trim_left_all [] h = refl
plain_trim_left_all (c ∷ cs) h =
    let parts = &&-eq-true (is_plain c) _ h.1 in rw (plain_not_space c parts.0) refl

pub IsPlain-IsClean : (t : List ℕ) → IsPlain t → IsClean t
unfolding IsPlain IsClean is_plain is_space
IsPlain-IsClean t h = (
  h.0,
  plain_trim_left_all t h,
  plain_trim_right t h.1,
  plain_lacks 10 t refl h.1,
  plain_lacks 13 t refl h.1,
  plain_lacks 0 t refl h.1,
)

IsClean-more : (t us : List ℕ) → IsPlain t → IsClean us → IsClean (t ++ (b',' ∷ 32 ∷ us))
unfolding IsClean is_empty lacks is_plain is_space IsPlain
IsClean-more t us h k = (
  plain_there t _ h,
  plain_trim_left t _ h,
  trim_right-append t (b',' ∷ 32 ∷ us) refl (trim_right-append (b',' ∷ 32 ∷ []) us k.0 k.2),
  lacks-append 10 t _ (plain_lacks 10 t refl h.1) k.3,
  lacks-append 13 t _ (plain_lacks 13 t refl h.1) k.4,
  lacks-append 0 t _ (plain_lacks 0 t refl h.1) k.5,
)

pub IsClean-join :
    (t : List ℕ) (ts : List (List ℕ)) → IsPlain t → All IsPlain ts → IsClean (join (t ∷ ts))
unfolding join
IsClean-join t [] h k = IsPlain-IsClean t h
IsClean-join t (s ∷ ss) h k = IsClean-more t (join (s ∷ ss)) h (IsClean-join s ss k.0 k.1)

part_trim : (t : List ℕ) → IsPlain t → (trim t ≡ t) × (trim (32 ∷ t) ≡ t)
unfolding trim trim_left is_space IsPlain
part_trim t h = rw (plain_trim_left_all t h) (plain_trim_right t h.1, plain_trim_right t h.1)

trim_items_more :
    (u t : List ℕ) (us ts : List (List ℕ))
    → trim u ≡ t
    → is_empty t ≡ false
    → trim_items us ≡ some ts
    → trim_items (u ∷ us) ≡ some (t ∷ ts)
unfolding trim_items
trim_items_more u t us ts h k m =
    let there = subst (λ x. is_empty x ≡ false) (sym h) k in
    subst (λ x. trim_items (u ∷ us) ≡ some (x ∷ ts)) h (rw (m, there) refl)

-- The first text is read back, with or without a space before it, and then the rest.
first_item :
    (t u : List ℕ) (us ts : List (List ℕ))
    → IsPlain t
    → split b',' u ≡ t ∷ us
    → trim_items us ≡ some ts
    → (trim_items (split b',' u) ≡ some (t ∷ ts))
      × (trim_items (split b',' (32 ∷ u)) ≡ some (t ∷ ts))
unfolding split push IsPlain
first_item t u us ts h e k = rw e (
  trim_items_more t t us ts (part_trim t h).0 h.0 k,
  trim_items_more (32 ∷ t) t us ts (part_trim t h).1 h.0 k,
)

-- The texts of a list are read back, with or without a space before the list.
pub split-join :
    (t : List ℕ) (ts : List (List ℕ))
    → IsPlain t
    → All IsPlain ts
    → (trim_items (split b',' (join (t ∷ ts))) ≡ some (t ∷ ts))
      × (trim_items (split b',' (32 ∷ join (t ∷ ts))) ≡ some (t ∷ ts))
unfolding join trim_items IsPlain is_plain
split-join t [] h k = first_item t t [] [] h (split_one b',' t (plain_lacks b',' t refl h.1)) refl
split-join t (s ∷ ss) h k =
    first_item t (t ++ (b',' ∷ 32 ∷ join (s ∷ ss))) _ (s ∷ ss) h
      (split_comma t (32 ∷ join (s ∷ ss)) (plain_lacks b',' t refl h.1)) (split-join s ss k.0 k.1).1
