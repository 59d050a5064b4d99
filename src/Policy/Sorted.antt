-- ===== src/Policy/Sorted.antt =====
-- What the sorted policies decide, whatever their order was: what denies comes first.
use nft_firewall_v.Prelude.{
  Bool, true, false, ◌||◌, ◌≡◌, ◌∙◌, refl, sym, subst, List, [], ◌∷◌, if◌then◌else◌, str_eq, str_lt,
  eq_iff, All, Bool-cases, inl, inr, arith,
}
use nft_firewall_v.Policy.{Policy, policy_less, insert_policy, sorted_policies}

unfoldable pub denies : Policy → Bool
denies p = str_eq p.action "deny"

-- Whether the test holds of a member.
unfoldable pub some_of : (Policy → Bool) → List Policy → Bool
some_of test [] = false
some_of test (p ∷ ps) = test p || some_of test ps

unfoldable pub DeniesFirst : List Policy → Type 0
DeniesFirst [] = Unit
DeniesFirst (p ∷ ps) = (denies p ≡ false → All (λ q. denies q ≡ false) ps) × DeniesFirst ps

All-insert_policy :
    (P : Policy → Type 0) (a : Policy) (ps : List Policy)
    → P a
    → All P ps
    → All P (insert_policy a ps)
unfolding insert_policy
All-insert_policy P a [] x h = (x, tt)
All-insert_policy P a (b ∷ ps) x h = elim (Bool-cases (policy_less b a)) [
  | inl e ↦ rw e (h.0, All-insert_policy P a ps x h.1)
  | inr e ↦ rw e (x, h)
]

some_of-insert_policy :
    (test : Policy → Bool) (a : Policy) (ps : List Policy)
    → some_of test (insert_policy a ps) ≡ (test a || some_of test ps)
unfolding insert_policy some_of
some_of-insert_policy test a [] = refl
some_of-insert_policy test a (b ∷ ps) = elim (Bool-cases (policy_less b a)) [
  | inl e ↦ rw e (ground (arith, some_of-insert_policy test a ps))
  | inr e ↦ rw e refl
]

pub some_of-sorted_policies :
    (test : Policy → Bool) (ps : List Policy) → some_of test (sorted_policies ps) ≡ some_of test ps
unfolding sorted_policies some_of
some_of-sorted_policies test [] = refl
some_of-sorted_policies test (p ∷ ps) =
    some_of-insert_policy test p (sorted_policies ps)
    ∙ (λ i. test p || some_of-sorted_policies test ps i)

-- A policy that stands behind one that does not deny does not deny.
kept_first : (a b : Policy) → policy_less b a ≡ false → denies a ≡ false → denies b ≡ false
unfolding policy_less denies
kept_first a b h d = elim (Bool-cases (str_eq b.action a.action)) [
  | inl e ↦ subst (λ t. str_eq t "deny" ≡ false) (sym ((eq_iff _ _).0 e)) d
  | inr e ↦ subst (λ c. (if c then str_lt b.name a.name else str_eq b.action "deny") ≡ false) e h
]

moved_first : (a b : Policy) → policy_less b a ≡ true → denies b ≡ false → denies a ≡ false
unfolding policy_less denies
moved_first a b h d = elim (Bool-cases (str_eq b.action a.action)) [
  | inl e ↦ subst (λ t. str_eq t "deny" ≡ false) ((eq_iff _ _).0 e) d
  | inr e ↦
      let k : str_eq b.action "deny" ≡ true =
        subst (λ c. (if c then str_lt b.name a.name else str_eq b.action "deny") ≡ true) e h in
      cc
]

DeniesFirst-insert_policy :
    (a : Policy) (ps : List Policy) → DeniesFirst ps → DeniesFirst (insert_policy a ps)
unfolding DeniesFirst insert_policy
DeniesFirst-insert_policy a [] h = ((λ d. tt), tt)
DeniesFirst-insert_policy a (b ∷ ps) h = elim (Bool-cases (policy_less b a)) [
  | inl e ↦ rw e (
    (λ d. All-insert_policy _ a ps (moved_first a b e d) (h.0 d)),
    DeniesFirst-insert_policy a ps h.1,
  )
  | inr e ↦ rw e ((λ d. (kept_first a b e d, h.0 (kept_first a b e d))), h)
]

pub DeniesFirst-sorted_policies : (ps : List Policy) → DeniesFirst (sorted_policies ps)
unfolding sorted_policies DeniesFirst
DeniesFirst-sorted_policies [] = tt
DeniesFirst-sorted_policies (p ∷ ps) =
    DeniesFirst-insert_policy p (sorted_policies ps) (DeniesFirst-sorted_policies ps)
