-- ===== src/Claims/Limits/Replaced.antt =====
-- What a claim that was added, and a replacement of a source, leave in the table.
use nft_firewall_v.Prelude.{ℕ, ◌≤◌, ◌<◌, String, ◌≡◌, refl, some, List, [], length, arith}
use nft_firewall_v.Effects.{World, ok}
use nft_firewall_v.Effects.Logic.{succeeds}
use nft_firewall_v.Claims.Types.{Formats, Claim, Db}
use nft_firewall_v.Claims.Session.{Session}
use nft_firewall_v.Claims.Writes.{without, has_source, with_defaults, add_claim_bounded}
use nft_firewall_v.Claims.Replace.{canonical, sort_strings}
use nft_firewall_v.Claims.Publication.{is_expired}
use nft_firewall_v.Claims.Ends.{add_claim_bounded_ends}
use nft_firewall_v.Claims.Limits.{
  permanent_count, addresses_of, permanent_count-insert_claim, Fits-permanent_count,
}

-- What a replacement leaves: the rows of the other sources, in their order, and of this source the
-- canonical values of the addresses that were given, sorted. The claims that have not expired at
-- the time when they were counted are within the limit, and so are those that never expire.
pub record Settled (f : Formats) (source : String) (addresses : List String) (max : ℕ) (d d' : Db)
    : Type 0 where
  pub values : List String
  pub read : canonical f [] addresses ≡ some values
  pub others : without (has_source source) d'.claims ≡ without (has_source source) d.claims
  pub own : addresses_of source d'.claims ≡ sort_strings values
  pub counted : ℕ
  pub within : 0 < max → length (without (is_expired f counted) d'.claims) ≤ max
  pub limited : 0 < max → permanent_count d'.claims ≤ max

-- A claim that was added without an error under a limit leaves the claims that never expire within
-- the limit.
pub add_claim_bounded_limited :
    (f : Formats) (c : Claim) (max id : ℕ) (w : World Session)
    → 0 < max
    → (add_claim_bounded f c max w).1 ≡ ok id
    → permanent_count (((add_claim_bounded f c max w).0).machine.durable).claims ≤ max
add_claim_bounded_limited f c max id w positive =
    succeeds
      (add_claim_bounded_ends f (λ d. Unit) w.machine tt (λ i d. permanent_count d.claims ≤ max) c
        max
        (λ now n fits. (
          tt,
          omega (
            arith,
            permanent_count-insert_claim (with_defaults f now c) w.machine.durable,
            Fits-permanent_count f max now 1 w.machine.durable positive fits,
          ),
        )))
      w refl id
