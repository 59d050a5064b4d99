-- ===== src/Claims/Limits/Undone.antt =====
-- A claim that is added and removed leaves the claims as they were.
use nft_firewall_v.Prelude.{
  ℕ, ◌+◌, ◌≤◌, false, ◌≡◌, ◌∙◌, refl, List, [], ◌∷◌, ◌++◌, ◌==◌, All, ==_iff, arith,
}
use nft_firewall_v.Effects.{World, ok}
use nft_firewall_v.Effects.Logic.{succeeds}
use nft_firewall_v.Claims.Types.{Formats, Claim, Db}
use nft_firewall_v.Claims.Session.{Session}
use nft_firewall_v.Claims.Writes.{
  insert_claim, delete_claims, without, has_id, with_defaults, add_claim_bounded, remove_claim,
}
use nft_firewall_v.Claims.Ends.{add_claim_bounded_ends, remove_claim_ends}

-- Every id was given by the table.
unfoldable pub Numbered : Db → Type 0
Numbered d = All (λ c. c.id ≤ d.last_id) d.claims

-- The rows that an insertion leaves.
unfoldable Inserted : Db → ℕ → Db → Type 0
Inserted d id d' =
    (c : Claim) × (c.id ≡ d.last_id + 1) × (id ≡ d.last_id + 1) × (d'.claims ≡ d.claims ++ (c ∷ []))

is_new : (id last : ℕ) → id ≤ last → (id == last + 1) ≡ false
is_new id last h = ground arith

without_new :
    (last : ℕ) (cs : List Claim) (c : Claim)
    → All (λ d. d.id ≤ last) cs
    → c.id ≡ last + 1
    → without (has_id (last + 1)) (cs ++ (c ∷ [])) ≡ cs
unfolding without has_id
without_new last [] c h e = rw ((==_iff c.id (last + 1)).1 e) refl
without_new last (d ∷ cs) c (h, hs) e =
    rw (is_new d.id last h) (λ i. d ∷ without_new last cs c hs e i)

-- Where the ids of the table were given by it: the claims that stand after a claim was added and
-- then removed by its id, both without an error, are those from before, in their order.
pub add_claim_bounded-remove_claim :
    (f : Formats) (c : Claim) (max id : ℕ) (w w' : World Session)
    → Numbered w.machine.durable
    → (add_claim_bounded f c max w).1 ≡ ok id
    → w'.machine.durable ≡ ((add_claim_bounded f c max w).0).machine.durable
    → (remove_claim f id w').1 ≡ ok tt
    → (((remove_claim f id w').0).machine.durable).claims ≡ w.machine.durable.claims
unfolding Numbered Inserted insert_claim with_defaults delete_claims
add_claim_bounded-remove_claim f c max id w w' numbered added same removed =
    let d = w.machine.durable in
    let inserted : Inserted d id ((add_claim_bounded f c max w).0).machine.durable =
      succeeds
        (add_claim_bounded_ends f (λ q. Unit) w.machine tt (Inserted d) c max
          (λ now n fits. (tt, (_, refl, refl, refl))))
        w refl id added in
    let left : (((remove_claim f id w').0).machine.durable).claims
        ≡ without (has_id id) w'.machine.durable.claims =
      succeeds
        (remove_claim_ends f (λ q. Unit) w'.machine tt
          (λ q. q.claims ≡ without (has_id id) w'.machine.durable.claims) id (λ n. (tt, refl)))
        w' refl tt removed in
    left
    ∙ ((λ i. without (has_id (inserted.2 i)) (same i).claims)
        ∙ ((λ i. without (has_id (d.last_id + 1)) (inserted.3 i))
            ∙ without_new d.last_id d.claims inserted.0 numbered inserted.1))
