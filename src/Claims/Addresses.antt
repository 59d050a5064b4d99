-- ===== src/Claims/Addresses.antt =====
-- The addresses that claims block, `EffectiveAddresses` of internal/state/store.go.
pub mod Active
pub mod Service
pub mod Countries
use nft_firewall_v.Prelude.{
  ℕ, ◌+◌, ◌≤◌, String, Bool, true, false, not, ◌&&◌, ◌||◌, ◌≡◌, ◌∙◌, refl, sym, subst, Option, none,
  some, List, [], ◌∷◌, ◌++◌, if◌then◌else◌, ◌==◌, ltb, str_eq, str_lt, eq_iff, codes, length, arith,
  Bool-cases, inl, inr,
}
use nft_firewall_v.Effects.{Action, refused, pure, fail, ◌>>=◌, ◌>>◌, refuse_when}
use nft_firewall_v.Claims.Types.{
  Formats, Claim, Db, claim_source_pattern, is_allow_source, starts_with, parse_claim,
}
use nft_firewall_v.Claims.Session.{Session}
use nft_firewall_v.Claims.Writes.{add_claim_bounded, remove_operator_claim}
use nft_firewall_v.Claims.Replace.{contains, insert_text, sort_strings}

unfoldable pub blocks : String → Claim → Bool
blocks family c = str_eq c.family family && not (is_allow_source c.source)

-- The loop of `EffectiveAddresses`; a map's keys are a list without a repetition.
unfoldable pub collect : String → List String → List Claim → List String
unfolding blocks contains
collect family seen [] = seen
collect family seen (c ∷ cs) =
    collect family
      (if blocks family c && not (contains c.address seen) then c.address ∷ seen else seen) cs

-- `EffectiveAddresses`
unfoldable pub effective_addresses : List Claim → String → List String
unfolding collect sort_strings
effective_addresses cs family = sort_strings (collect family [] cs)

unfoldable pub blocks_any : String → String → List Claim → Bool
blocks_any a family [] = false
blocks_any a family (c ∷ cs) = (blocks family c && str_eq c.address a) || blocks_any a family cs

contains-insert_text :
    (a s : String) (ts : List String)
    → contains a (insert_text s ts) ≡ (str_eq s a || contains a ts)
unfolding contains insert_text
contains-insert_text a s [] = refl
contains-insert_text a s (t ∷ ts) = elim (Bool-cases (str_lt t s)) [
  | inl e ↦ rw e (ground (arith, contains-insert_text a s ts))
  | inr e ↦ rw e refl
]

contains-sort_strings :
    (a : String) (ts : List String) → contains a (sort_strings ts) ≡ contains a ts
unfolding contains sort_strings
contains-sort_strings a [] = refl
contains-sort_strings a (t ∷ ts) =
    contains-insert_text a t (sort_strings ts) ∙ (λ i. str_eq t a || contains-sort_strings a ts i)

contains_same :
    (a b : String) (seen : List String)
    → str_eq b a ≡ true
    → contains b seen ≡ true
    → contains a seen ≡ true
contains_same a b seen e h = subst (λ t. contains t seen ≡ true) ((eq_iff b a).0 e) h

new_one :
    (b same seen_a seen_b rest : Bool)
    → (b && not seen_b) ≡ true
    → ((same || seen_a) || rest) ≡ (seen_a || ((b && same) || rest))
new_one b same seen_a seen_b rest h = ground arith

old_one :
    (b same seen_a seen_b rest : Bool)
    → (same ≡ true → seen_b ≡ true → seen_a ≡ true)
    → (b && not seen_b) ≡ false
    → (seen_a || rest) ≡ (seen_a || ((b && same) || rest))
old_one false same seen_a seen_b rest k h = refl
old_one true false seen_a seen_b rest k h = refl
old_one true true seen_a true rest k h = rw (k refl refl) refl
old_one true true seen_a false rest k h = cc

contains-collect :
    (a family : String) (seen : List String) (cs : List Claim)
    → contains a (collect family seen cs) ≡ (contains a seen || blocks_any a family cs)
unfolding contains collect blocks_any
contains-collect a family seen [] = ground arith
contains-collect a family seen (c ∷ cs) =
    elim (Bool-cases (blocks family c && not (contains c.address seen))) [
      | inl e ↦ rw e (
          contains-collect a family (c.address ∷ seen) cs
          ∙ new_one (blocks family c) (str_eq c.address a) (contains a seen)
              (contains c.address seen) _ e)
      | inr e ↦ rw e (
          contains-collect a family seen cs
          ∙ old_one (blocks family c) (str_eq c.address a) (contains a seen)
              (contains c.address seen) _ (contains_same a c.address seen) e)
    ]

pub contains-effective_addresses :
    (a family : String) (cs : List Claim)
    → contains a (effective_addresses cs family) ≡ blocks_any a family cs
unfolding effective_addresses contains
contains-effective_addresses a family cs =
    contains-sort_strings a (collect family [] cs) ∙ contains-collect a family [] cs
