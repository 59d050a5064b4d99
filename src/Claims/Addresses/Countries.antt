-- ===== src/Claims/Addresses/Countries.antt =====
-- internal/geo/claims.go: the prefixes of a country, from the lines of a file. The checks of the
-- file are not modelled, and `clean` is what `strings` makes of a line without its comment.
use nft_firewall_v.Prelude.{
  ℕ, ◌+◌, ◌≤◌, String, Bool, true, false, not, ◌&&◌, ◌||◌, &&-eq-true, ◌≡◌, refl, sym, subst,
  Option, none, some, List, [], ◌∷◌, ◌++◌, if◌then◌else◌, ◌==◌, ltb, str_eq, eq_iff, length,
  length-append, arith, Bool-cases, inl, inr,
}
use nft_firewall_v.Claims.Types.{Formats}
use nft_firewall_v.Claims.Replace.{contains}

-- No text stands twice.
unfoldable pub unique : List String → Bool
unique [] = true
unique (s ∷ ss) = not (contains s ss) && unique ss

unfoldable pub limit_of : ℕ → ℕ
limit_of max = if max == 0 then 100000 else max

module _ (f : Formats) (clean : String → String) where
  unfoldable pub add_value : ℕ → List String → String → Option (List String)
  add_value max out value =
      if contains value out
      then some out
      else if ltb max (length out + 1)
      then none
      else some (out ++ (value ∷ []))

  unfoldable pub add_prefix : ℕ → List String → Option f.Prefix → Option (List String)
  unfolding add_value
  add_prefix max out none = none
  add_prefix max out (some p) = if f.bits p == 0 then none else add_value max out (f.masked p)

  -- One round of the loop.
  unfoldable pub add_line : ℕ → List String → String → Option (List String)
  unfolding add_prefix
  add_line max out line =
      if str_eq (clean line) "" then some out else add_prefix max out (f.parse_prefix (clean line))

  unfoldable pub load_lines : ℕ → List String → List String → Option (List String)
  unfolding add_line
  load_lines max out [] = some out
  load_lines max out (line ∷ rest) = elim (add_line max out line) [
    | none ↦ none
    | some next ↦ load_lines max next rest
  ]

  -- The list of `LoadCIDRs`, where it returns one.
  unfoldable pub load_cidrs : ℕ → List String → Option (List String)
  unfolding load_lines limit_of
  load_cidrs max lines = load_lines (limit_of max) [] lines

contains-append :
    (a : String) (xs : List String) (v : String)
    → contains a (xs ++ (v ∷ [])) ≡ (if contains a xs then true else str_eq v a)
unfolding contains
contains-append a [] v = ground arith
contains-append a (x ∷ xs) v = ground (arith, contains-append a xs v)

str_eq_sym : (a b : String) → str_eq a b ≡ false → str_eq b a ≡ false
str_eq_sym a b h = elim (Bool-cases (str_eq b a)) [
  | inr e ↦ e
  | inl e ↦ let k : str_eq a b ≡ true = (eq_iff a b).1 (sym ((eq_iff b a).0 e)) in cc
]

apart : (a b : Bool) → (a || b) ≡ false → (a ≡ false) × (b ≡ false)
apart a b h = (ground arith, ground arith)

joined_once :
    (a b c d : Bool)
    → a ≡ (if b then true else c)
    → not b ≡ true
    → c ≡ false
    → d ≡ true
    → (not a && d) ≡ true
joined_once a b c d e h k m = ground arith

unique-append :
    (xs : List String) (v : String)
    → contains v xs ≡ false
    → unique xs ≡ true
    → unique (xs ++ (v ∷ [])) ≡ true
unfolding unique contains
unique-append [] v h u = refl
unique-append (x ∷ xs) v h u =
    let parts = apart (str_eq x v) (contains v xs) h in
    let once = &&-eq-true (not (contains x xs)) (unique xs) u in
    joined_once (contains x (xs ++ (v ∷ []))) (contains x xs) (str_eq v x) _
      (contains-append x xs v) once.0 (str_eq_sym x v parts.0) (unique-append xs v parts.1 once.1)

fits_one :
    (max : ℕ) (out : List String) (v : String)
    → ltb max (length out + 1) ≡ false
    → length (out ++ (v ∷ [])) ≤ max
fits_one max out v h = ground (arith, length-append out (v ∷ []))

-- The list so far is within the limit, and no text stands in it twice.
IsList : ℕ → List String → Type 0
IsList max out = (length out ≤ max) × (unique out ≡ true)

WellDone : ℕ → Option (List String) → Type 0
WellDone max none = Unit
WellDone max (some out) = IsList max out

module _ (f : Formats) (clean : String → String) (max : ℕ) where
  add_value-IsList :
      (out : List String) (v : String) → IsList max out → WellDone max (add_value f clean max out v)
  unfolding add_value WellDone IsList
  add_value-IsList out v (short, once) = elim (Bool-cases (contains v out)) [
    | inl e ↦ rw e (short, once)
    | inr e ↦ elim (Bool-cases (ltb max (length out + 1))) [
      | inl k ↦ rw e (rw k tt)
      | inr k ↦ rw e (rw k (fits_one max out v k, unique-append out v e once))
    ]
  ]

  add_prefix-IsList :
      (out : List String) (p : Option f.Prefix)
      → IsList max out
      → WellDone max (add_prefix f clean max out p)
  unfolding add_prefix WellDone
  add_prefix-IsList out none h = tt
  add_prefix-IsList out (some p) h = elim (Bool-cases (f.bits p == 0)) [
    | inl e ↦ rw e tt
    | inr e ↦ rw e (add_value-IsList out (f.masked p) h)
  ]

  add_line-IsList :
      (out : List String) (line : String)
      → IsList max out
      → WellDone max (add_line f clean max out line)
  unfolding add_line WellDone
  add_line-IsList out line h = elim (Bool-cases (str_eq (clean line) "")) [
    | inl e ↦ rw e h
    | inr e ↦ rw e (add_prefix-IsList out (f.parse_prefix (clean line)) h)
  ]

  goes_on :
      (rest : List String) (step : Option (List String))
      → WellDone max step
      → ((next : List String) → IsList max next → WellDone max (load_lines f clean max next rest))
      → WellDone max (elim step [ none ↦ none | some next ↦ load_lines f clean max next rest ])
  unfolding WellDone
  goes_on rest none h k = tt
  goes_on rest (some next) h k = k next h

  load_lines-IsList :
      (out lines : List String) → IsList max out → WellDone max (load_lines f clean max out lines)
  unfolding load_lines WellDone
  load_lines-IsList out [] h = h
  load_lines-IsList out (line ∷ rest) h =
      goes_on rest (add_line f clean max out line) (add_line-IsList out line h)
        (λ next k. load_lines-IsList next rest k)

-- The prefixes that are loaded are at most as many as the limit says, a hundred thousand where none
-- is given, and none of them stands twice, whatever the lines were.
pub load_cidrs_limited :
    (f : Formats) (clean : String → String) (max : ℕ) (lines out : List String)
    → load_cidrs f clean max lines ≡ some out
    → (length out ≤ limit_of max) × (unique out ≡ true)
unfolding load_cidrs WellDone IsList unique
load_cidrs_limited f clean max lines out h =
    subst (WellDone (limit_of max)) h
      (load_lines-IsList f clean (limit_of max) [] lines (omega arith, refl))
