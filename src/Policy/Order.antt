-- ===== src/Policy/Order.antt =====
-- The order of the configured policies, and a policy that denies, in the verdict of
-- `ExplainEffective`.
use mathlib.Core.Bool.{Bool-set}
use mathlib.Core.Logic.{∥∥₁_elim}
use mathlib.Core.List.{Perm, Permᴰ}
use nft_firewall_v.Prelude.{
  Bool, true, false, not, ◌&&◌, ◌||◌, ◌≡◌, ◌∙◌, refl, sym, subst, List, ◌∷◌, str_eq, eq_iff, arith,
}
use nft_firewall_v.Policy.{NetIp, Policy, Effective, Query, RuntimeContext, is_trusted_service}
use nft_firewall_v.Policy.Explain.{source_zone, applies, explain_effective}
use nft_firewall_v.Policy.Sorted.{denies, some_of}
use nft_firewall_v.Policy.Verdict.{
  allows, permitted, verdict, allowed, explain_effective-allowed, loopback, wrong_family, blocked,
  leased,
}

abbrev pub with_policies : Effective → List Policy → Effective
with_policies e ps = record e { config = record e.config { policies = ps } }

or_swap : (a b c : Bool) → (a || (b || c)) ≡ (b || (a || c))
or_swap a b c = ground arith

some_of-Permᴰ :
    (test : Policy → Bool) (ps qs : List Policy) → Permᴰ ps qs → some_of test ps ≡ some_of test qs
unfolding some_of
some_of-Permᴰ test ps qs Permᴰ.nil = refl
some_of-Permᴰ test (a ∷ ps) (b ∷ qs) (Permᴰ.cons e p) =
    let h = some_of-Permᴰ test ps qs p in λ i. test (e i) || h i
some_of-Permᴰ test (a ∷ b ∷ l) (a' ∷ b' ∷ _) (Permᴰ.swap e f) =
    (λ i. test (e i) || (test (f i) || some_of test l))
    ∙ or_swap (test b') (test a') (some_of test l)
some_of-Permᴰ test ps qs (Permᴰ.trans p q) = some_of-Permᴰ test _ _ p ∙ some_of-Permᴰ test _ _ q

some_of-Perm :
    (test : Policy → Bool) (ps qs : List Policy) → Perm ps qs → some_of test ps ≡ some_of test qs
some_of-Perm test ps qs p = ∥∥₁_elim p (Bool-set _ _) (some_of-Permᴰ test ps qs)

permitted-Perm :
    (test : Policy → Bool) (ps qs : List Policy)
    → Perm ps qs
    → permitted test ps ≡ permitted test qs
unfolding permitted
permitted-Perm test ps qs p =
    rw (some_of-Perm (λ r. test r && allows r) ps qs p)
      (rw (some_of-Perm (λ r. test r && denies r) ps qs p))

module _ (n : NetIp) (e : Effective) (q : Query) (r : RuntimeContext) where
  allowed-Perm :
      (ps qs : List Policy)
      → Perm ps qs
      → allowed n (with_policies e ps) q r ≡ allowed n (with_policies e qs) q r
  unfolding allowed applies source_zone loopback wrong_family blocked leased is_trusted_service
  allowed-Perm ps qs p =
      let h = permitted-Perm (applies n e q (source_zone n e q.from)) ps qs p in
      λ i.
        loopback n e q r
        || (not (wrong_family n e q r)
            && (not (blocked n e q r q.from)
                && (not (blocked n e q r q.to) && (leased n e q r || h i))))

  -- Two configurations that differ in the order of their policies give every flow the same action.
  pub explain_effective-Perm :
      (ps qs : List Policy)
      → Perm ps qs
      → (explain_effective n (with_policies e ps) q r).action
        ≡ (explain_effective n (with_policies e qs) q r).action
  explain_effective-Perm ps qs p =
      explain_effective-allowed n (with_policies e ps) q r
      ∙ ((λ i. verdict (allowed-Perm ps qs p i))
          ∙ sym (explain_effective-allowed n (with_policies e qs) q r))

not_allows : (p : Policy) → denies p ≡ true → allows p ≡ false
unfolding allows denies
not_allows p h = subst (λ t. str_eq t "allow" ≡ false) (sym ((eq_iff _ _).0 h)) refl

permitted_without :
    (test : Policy → Bool) (p : Policy) (ps : List Policy)
    → denies p ≡ true
    → permitted test (p ∷ ps) ≡ true
    → permitted test ps ≡ true
unfolding permitted some_of
permitted_without test p ps d h = ground (arith, not_allows p d)

lets :
    (a b c d f g k : Bool)
    → (g ≡ true → k ≡ true)
    → (a || (not b && (not c && (not d && (f || g))))) ≡ true
    → (a || (not b && (not c && (not d && (f || k))))) ≡ true
lets a b c d f true k h e = rw (h refl) e
lets a b c d f false k h e = ground arith

verdict_allow : (b : Bool) → verdict b ≡ "allow" → b ≡ true
unfolding verdict
verdict_allow true h = refl
verdict_allow false h = cc

module _ (n : NetIp) (e : Effective) (q : Query) (r : RuntimeContext) where
  allowed_without :
      (p : Policy) (ps : List Policy)
      → denies p ≡ true
      → allowed n (with_policies e (p ∷ ps)) q r ≡ true
      → allowed n (with_policies e ps) q r ≡ true
  unfolding allowed applies source_zone loopback wrong_family blocked leased is_trusted_service
  allowed_without p ps d =
      lets (loopback n e q r) (wrong_family n e q r) (blocked n e q r q.from) (blocked n e q r q.to)
        (leased n e q r) _ _ (permitted_without (applies n e q (source_zone n e q.from)) p ps d)

  -- A policy that denies never lets a flow through: what is allowed with it at the head of the
  -- policies is allowed without it.
  pub explain_effective_without :
      (p : Policy) (ps : List Policy)
      → denies p ≡ true
      → (explain_effective n (with_policies e (p ∷ ps)) q r).action ≡ "allow"
      → (explain_effective n (with_policies e ps) q r).action ≡ "allow"
  unfolding verdict
  explain_effective_without p ps d h = explain_effective-allowed n (with_policies e ps) q r ∙ (λ i.
      verdict (
        allowed_without p ps d
          (verdict_allow _ (sym (explain_effective-allowed n (with_policies e (p ∷ ps)) q r) ∙ h))
          i))
