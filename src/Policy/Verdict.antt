-- ===== src/Policy/Verdict.antt =====
-- The verdict of `ExplainEffective`, stated without an order of the policies.
use nft_firewall_v.Prelude.{
  String, Bool, true, false, not, ◌&&◌, ◌||◌, ◌≡◌, ◌∙◌, refl, sym, subst, Option, none, some, List,
  [], ◌∷◌, if◌then◌else◌, str_eq, eq_iff, All, Bool-cases, &&-eq-true, inl, inr, arith,
}
use nft_firewall_v.Policy.{
  NetIp, Policy, Effective, Query, RuntimeContext, Decision, sorted_policies, decides,
  is_trusted_service,
}
use nft_firewall_v.Policy.Explain.{
  address_is, address_in_prefixes, source_zone, applies, first_match, decided, fixed,
  explain_effective,
}
use nft_firewall_v.Policy.Sorted.{
  denies, some_of, DeniesFirst, some_of-sorted_policies, DeniesFirst-sorted_policies,
}

unfoldable pub allows : Policy → Bool
allows p = str_eq p.action "allow"

-- Some policy that applies allows, and none denies.
unfoldable pub permitted : (Policy → Bool) → List Policy → Bool
unfolding allows denies
permitted test ps =
    some_of (λ p. test p && allows p) ps && not (some_of (λ p. test p && denies p) ps)

unfoldable pub verdict : Bool → String
verdict b = if b then "allow" else "deny"

no_denial :
    (test : Policy → Bool) (ps : List Policy)
    → All (λ p. denies p ≡ false) ps
    → some_of (λ p. test p && denies p) ps ≡ false
unfolding some_of
no_denial test [] h = refl
no_denial test (p ∷ ps) (h, hs) = ground (arith, no_denial test ps hs)

action_of : Option Policy → String
action_of none = "deny"
action_of (some p) = p.action

not_both : (p : Policy) → allows p ≡ true → denies p ≡ false
unfolding allows denies
not_both p h = subst (λ t. str_eq t "deny" ≡ false) (sym ((eq_iff _ _).0 h)) refl

module _ (test : Policy → Bool) (p : Policy) (ps : List Policy) (applied : test p ≡ true) where
  head_denies : denies p ≡ true → permitted test (p ∷ ps) ≡ false
  unfolding permitted some_of
  head_denies d = ground arith

  head_allows :
      allows p ≡ true
      → some_of (λ q. test q && denies q) ps ≡ false
      → permitted test (p ∷ ps) ≡ true
  unfolding permitted some_of
  head_allows a quiet = ground (arith, not_both p a)

  head_decides :
      (b : Bool)
      → permitted test (p ∷ ps) ≡ b
      → p.action ≡ verdict b
      → action_of (first_match test (p ∷ ps)) ≡ verdict (permitted test (p ∷ ps))
  unfolding first_match action_of
  head_decides b v a =
      subst (λ t. action_of (if t then some p else first_match test ps) ≡ p.action) (sym applied)
        refl
      ∙ (a ∙ (λ i. verdict (sym v i)))

decides_split : (p : Policy) → decides p ≡ true → denies p ≡ false → allows p ≡ true
unfolding decides denies allows
decides_split p h d = ground arith

action_denies : (p : Policy) → denies p ≡ true → p.action ≡ verdict false
unfolding denies verdict
action_denies p d = (eq_iff _ _).0 d

action_allows : (p : Policy) → allows p ≡ true → p.action ≡ verdict true
unfolding allows verdict
action_allows p a = (eq_iff _ _).0 a

tail_permitted :
    (test : Policy → Bool) (p : Policy) (ps : List Policy)
    → test p ≡ false
    → permitted test ps ≡ permitted test (p ∷ ps)
unfolding permitted some_of
tail_permitted test p ps e = rw e refl

first_match-permitted :
    (test : Policy → Bool)
    → ((p : Policy) → test p ≡ true → decides p ≡ true)
    → (ps : List Policy) → DeniesFirst ps
    → action_of (first_match test ps) ≡ verdict (permitted test ps)
unfolding first_match action_of verdict DeniesFirst permitted some_of
first_match-permitted test only [] h = refl
first_match-permitted test only (p ∷ ps) (h, hs) = elim (Bool-cases (test p)) [
  | inr e ↦ rw e (first_match-permitted test only ps hs)
  | inl e ↦ elim (Bool-cases (denies p)) [
    | inl d ↦ head_decides test p ps e false (head_denies test p ps e d) (action_denies p d)
    | inr d ↦
        let a = decides_split p (only p e) d in
        head_decides test p ps e true (head_allows test p ps e a (no_denial test ps (h d)))
          (action_allows p a)
  ]
]

pub permitted-sorted_policies :
    (test : Policy → Bool) (ps : List Policy)
    → permitted test (sorted_policies ps) ≡ permitted test ps
unfolding permitted
permitted-sorted_policies test ps =
    rw (some_of-sorted_policies (λ p. test p && allows p) ps)
      (rw (some_of-sorted_policies (λ p. test p && denies p) ps))

only_decided :
    (n : NetIp) (e : Effective) (q : Query) (zone : String) (p : Policy)
    → applies n e q zone p ≡ true
    → decides p ≡ true
unfolding applies
only_decided n e q zone p h = (&&-eq-true _ _ h).0

abbrev chosen : Decision → String
chosen d = d.action

-- The tests of `ExplainEffective` in their order, and what the action of each answer is.
cascade :
    (a b c d f g : Bool) (d1 d2 d3 d4 d5 last : Decision)
    → d1.action ≡ verdict true
    → d2.action ≡ verdict false
    → d3.action ≡ verdict false
    → d4.action ≡ verdict false
    → d5.action ≡ verdict true
    → last.action ≡ verdict g
    → chosen (
        if a
        then d1
        else if b
        then d2
        else if c
        then d3
        else if d
        then d4
        else if f
        then d5
        else last)
      ≡ verdict (a || (not b && (not c && (not d && (f || g)))))
cascade true b c d f g d1 d2 d3 d4 d5 last h1 h2 h3 h4 h5 h = h1
cascade false true c d f g d1 d2 d3 d4 d5 last h1 h2 h3 h4 h5 h = h2
cascade false false true d f g d1 d2 d3 d4 d5 last h1 h2 h3 h4 h5 h = h3
cascade false false false true f g d1 d2 d3 d4 d5 last h1 h2 h3 h4 h5 h = h4
cascade false false false false true g d1 d2 d3 d4 d5 last h1 h2 h3 h4 h5 h = h5
cascade false false false false false g d1 d2 d3 d4 d5 last h1 h2 h3 h4 h5 h = h

decided-action :
    (q : Query) (zone : String) (o : Option Policy) → (decided q zone o).action ≡ action_of o
unfolding decided action_of
decided-action q zone none = refl
decided-action q zone (some p) = refl

module _ (n : NetIp) (e : Effective) (q : Query) (r : RuntimeContext) where
  unfoldable pub loopback : Bool
  unfolding address_is
  loopback =
      address_is n n.is_loopback (n.parse_addr q.from)
      || address_is n n.is_loopback (n.parse_addr q.to)

  unfoldable pub wrong_family : Bool
  unfolding address_is
  wrong_family =
      str_eq e.config.ipv6_mode "disabled"
      && (address_is n n.is6 (n.parse_addr q.from) || address_is n n.is6 (n.parse_addr q.to))

  unfoldable pub blocked : String → Bool
  unfolding address_is address_in_prefixes
  blocked raw = address_is n (address_in_prefixes n r.blocked_prefixes) (n.parse_addr raw)

  unfoldable pub leased : Bool
  unfolding address_is address_in_prefixes is_trusted_service
  leased =
      str_eq q.to "host"
      && (address_is n (address_in_prefixes n r.trusted_prefixes) (n.parse_addr q.from)
          && is_trusted_service e q.protocol q.port)

  -- Loopback is allowed; else a disabled family and a blocked end are not; else a lease is, and
  -- else what the policies permit.
  unfoldable pub allowed : Bool
  unfolding loopback wrong_family blocked leased permitted applies source_zone
  allowed =
      loopback
      || (not wrong_family
          && (not (blocked q.from)
              && (not (blocked q.to)
                  && (leased
                      || permitted (applies n e q (source_zone n e q.from)) e.config.policies))))

  -- `ExplainEffective` allows a flow exactly when it is loopback traffic, or its address family is
  -- not disabled, neither end is in a blocked prefix, and either a trusted service is leased to the
  -- source or some policy that applies allows it while none that applies denies it; otherwise it
  -- denies. The order of the policies does not come in.
  pub explain_effective-allowed : (explain_effective n e q r).action ≡ verdict allowed
  unfolding explain_effective fixed verdict loopback wrong_family blocked leased allowed
  explain_effective-allowed =
      let test = applies n e q (source_zone n e q.from) in
      cascade loopback wrong_family (blocked q.from) (blocked q.to) leased
        (permitted test e.config.policies) _ _ _ _ _ _ refl refl refl refl refl
        (decided-action q _ _
          ∙ (first_match-permitted test (only_decided n e q _) (sorted_policies e.config.policies)
                (DeniesFirst-sorted_policies e.config.policies)
              ∙ (λ i. verdict (permitted-sorted_policies test e.config.policies i))))
