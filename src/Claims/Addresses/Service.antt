-- ===== src/Claims/Addresses/Service.antt =====
-- internal/blocks/claims.go: the claims that operators add and remove.
use nft_firewall_v.Prelude.{
  ℕ, String, Bool, true, false, not, ◌||◌, ◌≡◌, refl, sym, subst, Option, none, some, List, [], ◌∷◌,
  ◌++◌, if◌then◌else◌, ◌==◌, str_eq, eq_iff, codes, arith, &&-eq-true, Bool-cases, inl, inr,
}
use nft_firewall_v.Effects.{Action, World, ok, refused, fail, ◌>>◌, refuse_when}
use nft_firewall_v.Effects.Logic.{Keeps, refuses_then, succeeds}
use nft_firewall_v.Claims.Types.{
  Formats, Claim, claim_source_pattern, is_allow_source, starts_with, parse_claim,
}
use nft_firewall_v.Claims.Session.{Session}
use nft_firewall_v.Claims.Session.Steps.{Durable}
use nft_firewall_v.Claims.Writes.{
  insert_claim, with_defaults, add_claim_bounded, remove_operator_claim,
}
use nft_firewall_v.Claims.Ends.{add_claim_bounded_ends}
use nft_firewall_v.Claims.Replace.{contains}
use nft_firewall_v.Claims.Addresses.{effective_addresses}
use nft_firewall_v.Claims.Addresses.Active.{
  active_claims, Blocks, IsBlocked, IsUnexpired, not-IsAccess, effective_addresses_iff,
}

module _ (f : Formats) where
  unfoldable pub family_of : f.Prefix → String
  family_of p = if f.is4 (f.addr p) then "ipv4" else "ipv6"

  unfoldable pub new_claim : f.Prefix → String → String → String → Option String → Claim
  unfolding family_of
  new_claim p source reason actor expires = record {
    id = 0;
    address = f.masked p;
    family = family_of p;
    source = source;
    reason = reason;
    actor = actor;
    created_at = "";
    expires_at = expires;
  }

  unfoldable pub add_parsed :
      Option f.Prefix → String → String → String → Option String → ℕ → Action Session ℕ
  unfolding new_claim
  add_parsed none source reason actor expires max = fail (refused "invalid block address")
  add_parsed (some p) source reason actor expires max =
      add_claim_bounded f (new_claim p source reason actor expires) max

  -- `Service.Add`
  unfoldable pub add_block :
      String → String → String → String → Option String → ℕ → Action Session ℕ
  unfolding add_parsed
  add_block address source reason actor expires max = do
    refuse_when (not (claim_source_pattern source) || starts_with (codes "allow") (codes source))
        "invalid block claim source"
    add_parsed (parse_claim f address) source reason actor expires max

  unfoldable pub allow_parsed : Option f.Prefix → String → String → String → ℕ → Action Session ℕ
  unfolding new_claim
  allow_parsed none reason actor expires max = fail (refused "invalid allow address")
  allow_parsed (some p) reason actor expires max = do
    refuse_when (f.bits p == 0) "allow /0 is forbidden"
    add_claim_bounded f (new_claim p "allow" reason actor (some expires)) max

  -- `Service.AddAllow`
  unfoldable pub add_allow : String → String → String → Option String → ℕ → Action Session ℕ
  unfolding allow_parsed
  add_allow address reason actor none max = fail (refused "temporary access requires an expiry")
  add_allow address reason actor (some expires) max =
      allow_parsed (parse_claim f address) reason actor expires max

  -- `Service.RemoveBlock` and `Service.RemoveAllow`
  unfoldable pub remove_block : ℕ → Action Session (Unit {0})
  remove_block id = remove_operator_claim f id "block"

  unfoldable pub remove_allow : ℕ → Action Session (Unit {0})
  remove_allow id = remove_operator_claim f id "allow"

starts_with-append :
    (ps qs cs : List ℕ) → starts_with (ps ++ qs) cs ≡ true → starts_with ps cs ≡ true
unfolding starts_with
starts_with-append [] qs cs h = refl
starts_with-append (p ∷ ps) qs [] h = cc
starts_with-append (p ∷ ps) qs (c ∷ cs) h =
    let both = &&-eq-true (p == c) (starts_with (ps ++ qs) cs) h in
    ground (arith, both.0, starts_with-append ps qs cs both.1)

second_false : (a b : Bool) → (a || b) ≡ false → b ≡ false
second_false a b h = ground arith

no_prefix :
    (source : String)
    → str_eq source "allow" ≡ true
    → starts_with (codes "allow") (codes source) ≡ false
    → ⊥
unfolding starts_with
no_prefix source e h =
    let k : starts_with (codes "allow") (codes "allow") ≡ false =
      subst (λ t. starts_with (codes "allow") (codes t) ≡ false) ((eq_iff source "allow").0 e) h in
    cc

not_allow :
    (source : String)
    → starts_with (codes "allow") (codes source) ≡ false
    → is_allow_source source ≡ false
unfolding is_allow_source
not_allow source h = elim (Bool-cases (str_eq source "allow")) [
  | inl e ↦ elim (no_prefix source e h) [ ]
  | inr e ↦ elim (Bool-cases (starts_with (codes "allow/") (codes source))) [
    | inl k ↦ let s = starts_with-append (codes "allow") (b'/' ∷ []) (codes source) k in cc
    | inr k ↦ ground (arith, e, k)
  ]
]

IsBlocked-last :
    (f : Formats) (now : ℕ) (family a : String) (cs : List Claim) (c : Claim)
    → Blocks f now family a c
    → IsBlocked f now family a (cs ++ (c ∷ []))
unfolding IsBlocked
IsBlocked-last f now family a [] c b = inl b
IsBlocked-last f now family a (d ∷ cs) c b = inr (IsBlocked-last f now family a cs c b)

module _ (f : Formats) (later : ℕ) (address source reason actor : String) (expires : Option String)
    (max : ℕ) (p : f.Prefix) (read : parse_claim f address ≡ some p)
    (unexpired : IsUnexpired f later expires) (s : Session) where
  parsed_blocks :
      is_allow_source source ≡ false
      → Keeps s
          (Durable (λ d. Unit {0}))
          (add_claim_bounded f (new_claim f p source reason actor expires) max)
          (λ id s'. IsBlocked f later (family_of f p) (f.masked p) s'.durable.claims)
  unfolding insert_claim with_defaults Blocks new_claim
  parsed_blocks plain =
      add_claim_bounded_ends f (λ d. Unit) s tt
        (λ id d. IsBlocked f later (family_of f p) (f.masked p) d.claims)
        (new_claim f p source reason actor expires) max
        (λ now n fits. (
          tt,
          IsBlocked-last f later (family_of f p) (f.masked p) s.durable.claims _
              (refl, refl, not-IsAccess source plain, unexpired),
        ))

  add_block_keeps :
      Keeps s
        (Durable (λ d. Unit {0}))
        (add_block f address source reason actor expires max)
        (λ id s'. IsBlocked f later (family_of f p) (f.masked p) s'.durable.claims)
  unfolding add_block add_parsed
  add_block_keeps = refuses_then _ _ tt (λ good u.
      subst
        (λ o.
          Keeps s (Durable (λ d. Unit {0})) (add_parsed f o source reason actor expires max)
            (λ id s'. IsBlocked f later (family_of f p) (f.masked p) s'.durable.claims))
        (sym read) (parsed_blocks (not_allow source (second_false _ _ good))))

-- A block that was added without an error is, whatever stood in the table, among the effective
-- addresses of its family for the claims that are active at any time at which it has not expired:
-- it has no expiry, or one that sorts behind that time.
pub add_block_blocks :
    (f : Formats) (later : ℕ) (address source reason actor : String) (expires : Option String)
    (max id : ℕ) (p : f.Prefix) (w : World Session)
    → parse_claim f address ≡ some p
    → IsUnexpired f later expires
    → (add_block f address source reason actor expires max w).1 ≡ ok id
    → contains (f.masked p) (
        effective_addresses
          (active_claims f later
            (((add_block f address source reason actor expires max w).0).machine.durable).claims)
          (family_of f p))
      ≡ true
add_block_blocks f later address source reason actor expires max id p w read unexpired done =
    (effective_addresses_iff f later (family_of f p) (f.masked p) _).1 (
      succeeds
        (add_block_keeps f later address source reason actor expires max p read unexpired w.machine)
        w refl id done)
