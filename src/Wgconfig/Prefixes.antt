-- ===== src/Wgconfig/Prefixes.antt =====
-- The lists of prefixes that internal/wgconfig/profile.go reads: sorted, and without a repetition.
use nft_firewall_v.Prelude.{
  ℕ, Bool, true, false, ◌&&◌, ◌||◌, ◌≡◌, ◌∙◌, refl, subst, List, [], ◌∷◌, Option, none, some, arith,
  All, Bool-cases, inl, inr, &&-eq-true, some_follows, some_reached, if◌then◌else◌,
}
use nft_firewall_v.Wgconfig.Text.{text_eq, text_lt, has}
use nft_firewall_v.Wgconfig.Text.Order.{
  text_lt_total, text_lt_asym, all_above, increasing, all_above_trans, distinct, distinct_head,
}
use nft_firewall_v.Wgconfig.{Library}
use nft_firewall_v.Wgconfig.Fields.{
  insert_prefix, sort_prefixes, read_prefixes, parse_prefixes, split_list,
}
use nft_firewall_v.Wgconfig.Print.{prefix_texts}

module _ (L : Library) where
  has-insert :
      (t : List ℕ) (p : L.Prefix) (qs : List L.Prefix)
      → has t (prefix_texts L (insert_prefix L p qs))
        ≡ (text_eq t (L.prefix_text p) || has t (prefix_texts L qs))
  unfolding has prefix_texts insert_prefix
  has-insert t p [] = refl
  has-insert t p (q ∷ qs) = elim (Bool-cases (text_lt (L.prefix_text q) (L.prefix_text p))) [
    | inl e ↦ rw e (ground (arith, has-insert t p qs))
    | inr e ↦ rw e refl
  ]

  has-sort :
      (t : List ℕ) (ps : List L.Prefix)
      → has t (prefix_texts L (sort_prefixes L ps)) ≡ has t (prefix_texts L ps)
  unfolding has prefix_texts sort_prefixes
  has-sort t [] = refl
  has-sort t (p ∷ ps) =
      has-insert t p (sort_prefixes L ps) ∙ (λ i. text_eq t (L.prefix_text p) || has-sort t ps i)

  all_above-insert :
      (t : List ℕ) (p : L.Prefix) (qs : List L.Prefix)
      → text_lt t (L.prefix_text p) ≡ true
      → all_above t (prefix_texts L qs) ≡ true
      → all_above t (prefix_texts L (insert_prefix L p qs)) ≡ true
  unfolding all_above prefix_texts insert_prefix
  all_above-insert t p [] h k = rw h refl
  all_above-insert t p (q ∷ qs) h k =
      elim (Bool-cases (text_lt (L.prefix_text q) (L.prefix_text p))) [
        | inl e ↦
            let parts = &&-eq-true (text_lt t (L.prefix_text q)) _ k in
            rw e (rw parts.0 (all_above-insert t p qs h parts.1))
        | inr e ↦ rw e (rw h k)
      ]

  increasing-insert :
      (p : L.Prefix) (qs : List L.Prefix)
      → has (L.prefix_text p) (prefix_texts L qs) ≡ false
      → increasing (prefix_texts L qs) ≡ true
      → increasing (prefix_texts L (insert_prefix L p qs)) ≡ true
  unfolding increasing all_above prefix_texts insert_prefix has
  increasing-insert p [] h k = refl
  increasing-insert p (q ∷ qs) h k =
      let parts = &&-eq-true (all_above (L.prefix_text q) (prefix_texts L qs)) _ k in
      let apart : text_eq (L.prefix_text p) (L.prefix_text q) ≡ false = ground (arith, h) in
      let rest : has (L.prefix_text p) (prefix_texts L qs) ≡ false = ground (arith, h) in
      elim (Bool-cases (text_lt (L.prefix_text q) (L.prefix_text p))) [
        | inl e ↦ rw e (
            rw (all_above-insert (L.prefix_text q) p qs e parts.0)
              (increasing-insert p qs rest parts.1))
        | inr e ↦
            let less = text_lt_total (L.prefix_text q) (L.prefix_text p) e apart in
            rw e (
              rw less (rw (all_above_trans (L.prefix_text p) _ (prefix_texts L qs) less parts.0) k))
      ]

  increasing-sort :
      (seen : List (List ℕ)) (ps : List L.Prefix)
      → distinct seen (prefix_texts L ps) ≡ true
      → increasing (prefix_texts L (sort_prefixes L ps)) ≡ true
  unfolding prefix_texts sort_prefixes increasing
  increasing-sort seen [] h = refl
  increasing-sort seen (p ∷ ps) h =
      let parts = distinct_head seen (L.prefix_text p) (prefix_texts L ps) h in
      increasing-insert p (sort_prefixes L ps) (has-sort (L.prefix_text p) ps ∙ parts.0)
        (increasing-sort (L.prefix_text p ∷ seen) ps parts.1)

  -- Sorting what is sorted changes nothing.
  pub sort_sorted :
      (ps : List L.Prefix) → increasing (prefix_texts L ps) ≡ true → sort_prefixes L ps ≡ ps
  unfolding sort_prefixes insert_prefix increasing all_above prefix_texts
  sort_sorted [] h = refl
  sort_sorted (p ∷ []) h = refl
  sort_sorted (p ∷ q ∷ qs) h =
      let parts = &&-eq-true (text_lt (L.prefix_text p) _ && all_above (L.prefix_text p) _) _ h in
      let first = &&-eq-true (text_lt (L.prefix_text p) (L.prefix_text q)) _ parts.0 in
      let rest = sort_sorted (q ∷ qs) parts.1 in
      rw rest (rw (text_lt_asym (L.prefix_text p) (L.prefix_text q) first.0) refl)

  -- A prefix as the library reads it.
  abbrev pub IsParsed : L.Prefix → Type 0
  IsParsed p = (t : List ℕ) × (L.parse_prefix t ≡ some p)

  -- A prefix of a list that was read with or without `Masked`.
  unfoldable pub IsRead : Bool → L.Prefix → Type 0
  IsRead true p = (q : L.Prefix) × (L.masked q ≡ p) × IsParsed q
  IsRead false p = IsParsed p

  All-insert :
      (mask : Bool) (p : L.Prefix) (qs : List L.Prefix)
      → IsRead mask p
      → All (IsRead mask) qs
      → All (IsRead mask) (insert_prefix L p qs)
  unfolding insert_prefix
  All-insert mask p [] h k = (h, tt)
  All-insert mask p (q ∷ qs) h k = elim (Bool-cases (text_lt (L.prefix_text q) (L.prefix_text p))) [
    | inl e ↦ rw e (k.0, All-insert mask p qs h k.1)
    | inr e ↦ rw e (h, k)
  ]

  All-sort :
      (mask : Bool) (ps : List L.Prefix)
      → All (IsRead mask) ps
      → All (IsRead mask) (sort_prefixes L ps)
  unfolding sort_prefixes
  All-sort mask [] h = tt
  All-sort mask (p ∷ ps) h = All-insert mask p (sort_prefixes L ps) h.0 (All-sort mask ps h.1)

  mask_IsRead :
      (mask : Bool) (q : L.Prefix) → IsParsed q → IsRead mask (if mask then L.masked q else q)
  unfolding IsRead
  mask_IsRead true q h = (q, refl, h)
  mask_IsRead false q h = h

  -- What holds of the prefixes that the loop gives, if it gives any.
  WellRead : Bool → List (List ℕ) → Option (List L.Prefix) → Type 0
  WellRead mask seen none = Unit
  WellRead mask seen (some ps) = (distinct seen (prefix_texts L ps) ≡ true) × All (IsRead mask) ps

  WellRead-more :
      (mask : Bool) (seen : List (List ℕ)) (p : L.Prefix) (rest : Option (List L.Prefix))
      → IsRead mask p
      → has (L.prefix_text p) seen ≡ false
      → WellRead mask (L.prefix_text p ∷ seen) rest
      → WellRead mask seen (elim rest [ none ↦ none | some ps ↦ some (p ∷ ps) ])
  unfolding WellRead distinct prefix_texts
  WellRead-more mask seen p none h k r = tt
  WellRead-more mask seen p (some ps) h k r = (rw k r.0, (h, r.1))

  WellRead-found :
      (mask : Bool) (seen : List (List ℕ)) (p : L.Prefix) (rest : Option (List L.Prefix))
      → IsRead mask p
      → WellRead mask (L.prefix_text p ∷ seen) rest
      → WellRead mask seen (
          if has (L.prefix_text p) seen
          then none
          else elim rest [ none ↦ none | some ps ↦ some (p ∷ ps) ])
  unfolding WellRead
  WellRead-found mask seen p rest h r = elim (Bool-cases (has (L.prefix_text p) seen)) [
    | inl e ↦ rw e tt
    | inr e ↦ rw e (WellRead-more mask seen p rest h e r)
  ]

  read_prefixes-WellRead :
      (mask : Bool) (seen raws : List (List ℕ))
      → WellRead mask seen (read_prefixes L mask seen raws)
  unfolding WellRead read_prefixes distinct prefix_texts
  read_prefixes-WellRead mask seen [] = (refl, tt)
  read_prefixes-WellRead mask seen (raw ∷ raws) =
      some_follows (WellRead mask seen) (L.parse_prefix raw) _ tt (λ q e.
        WellRead-found mask seen (if mask then L.masked q else q) _ (mask_IsRead mask q (raw, e)) (
          read_prefixes-WellRead mask (L.prefix_text (if mask then L.masked q else q) ∷ seen) raws))

  WellRead-sort :
      (mask : Bool) (seen : List (List ℕ)) (ps : List L.Prefix)
      → WellRead mask seen (some ps)
      → (increasing (prefix_texts L (sort_prefixes L ps)) ≡ true)
        × All (IsRead mask) (sort_prefixes L ps)
  unfolding WellRead
  WellRead-sort mask seen ps h = (increasing-sort seen ps h.0, All-sort mask ps h.1)

  -- What `parsePrefixes` gives is in order, without a repetition, and was read by the library.
  pub parse_prefixes-IsRead :
      (value : List ℕ) (mask : Bool) {ps : List L.Prefix}
      → parse_prefixes L value mask ≡ some ps
      → (increasing (prefix_texts L ps) ≡ true) × All (IsRead mask) ps
  unfolding parse_prefixes WellRead
  parse_prefixes-IsRead value mask {ps} h =
      let (raws, e, k) = some_reached (split_list value) _ h in
      let (qs, m, n) = some_reached (read_prefixes L mask [] raws) _ k in
      let same : sort_prefixes L qs ≡ ps = cc in
      let well =
        WellRead-sort mask [] qs
          (subst (WellRead mask []) m (read_prefixes-WellRead mask [] raws)) in
      subst (λ rs. (increasing (prefix_texts L rs) ≡ true) × All (IsRead mask) rs) same well
