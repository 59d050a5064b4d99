-- ===== src/Threatintel/Coverage.antt =====
-- internal/threatintel/feed.go: `validateAggregateCoverage`, which bounds the addresses that a feed
-- covers. Its two inner loops run on fuel.
pub mod Loops
pub mod Bounded
use nft_firewall_v.Prelude.{
  ℕ, zero, suc, ◌+◌, ◌*◌, ◌^◌, Bool, true, false, not, ◌&&◌, ◌||◌, List, [], ◌∷◌, Option, none,
  some, Outcome, ok, err, if◌then◌else◌, ◌==◌, ltb, leb,
}

-- What is used of `net/netip`; `same` is `==` on prefixes.
pub record NetIp : Type 1 where
  pub Addr : Type 0
  pub Prefix : Type 0
  pub parse_prefix : List ℕ → Option Prefix
  pub must_parse_prefix : List ℕ → Prefix
  pub parse_addr : List ℕ → Option Addr
  pub prefix_from : Addr → ℕ → Prefix
  pub prefix_text : Prefix → List ℕ
  pub masked : Prefix → Prefix
  pub addr : Prefix → Addr
  pub bits : Prefix → ℕ
  pub bit_len : Addr → ℕ
  pub less : Addr → Addr → Bool
  pub same : Prefix → Prefix → Bool
  pub overlaps : Prefix → Prefix → Bool
  pub contains : Prefix → Addr → Bool
  pub is_valid : Prefix → Bool
  pub is4 : Addr → Bool
  pub is4_in6 : Addr → Bool
  pub is_global_unicast : Addr → Bool
  pub is_private : Addr → Bool
  pub is_loopback : Addr → Bool
  pub is_link_local_unicast : Addr → Bool
  pub is_multicast : Addr → Bool
  pub is_unspecified : Addr → Bool

-- The errors of `Parse` and `Validate`; those of an entry carry its line.
pub data FeedError : Type 0 where
  invalid_entry not_public : ℕ → FeedError
  limit_exceeded scan_failed not_allowed protected_invalid overlaps_protected too_much : FeedError

unfoldable pub min_ipv4_feed_bits : ℕ
min_ipv4_feed_bits = 24

unfoldable pub min_ipv6_feed_bits : ℕ
min_ipv6_feed_bits = 48

-- `minimum`
unfoldable pub minimum_of : ℕ → ℕ
unfolding min_ipv4_feed_bits min_ipv6_feed_bits
minimum_of family = if family == 32 then min_ipv4_feed_bits else min_ipv6_feed_bits

-- `limits`; the families are 32 and 128 bits.
unfoldable pub limit_of : ℕ → ℕ
limit_of family = if family == 32 then 2 ^ 20 else 2 ^ 92

-- The loop that doubles `size`, `none` where the fuel is used up.
unfoldable pub double_from : ℕ → ℕ → ℕ → ℕ → Option ℕ
double_from zero bit family size = none
double_from (suc fuel) bit family size =
    let rest = double_from fuel (bit + 1) family (size * 2) in
    if ltb bit family then rest else some size

module _ (N : NetIp) where
  unfoldable pub has_prefix : N.Prefix → List N.Prefix → Bool
  has_prefix p [] = false
  has_prefix p (q ∷ qs) = N.same p q || has_prefix p qs

  unfoldable pub family_of : N.Prefix → ℕ
  family_of p = N.bit_len (N.addr p)

  unfoldable pub ancestor : N.Prefix → ℕ → N.Prefix
  ancestor p bits = N.masked (N.prefix_from (N.addr p) bits)

  -- The loop that looks for an ancestor, `none` where the fuel is used up.
  unfoldable pub covered_from : ℕ → ℕ → List N.Prefix → N.Prefix → Option Bool
  unfolding has_prefix ancestor
  covered_from zero bits seen p = none
  covered_from (suc fuel) bits seen p =
      let rest = covered_from fuel (bits + 1) seen p in
      if leb bits (N.bits p)
      then if has_prefix (ancestor p bits) seen then some true else rest
      else some false

  -- The order of `sort.Slice`.
  unfoldable pub prefix_less : N.Prefix → N.Prefix → Bool
  unfolding family_of
  prefix_less p q =
      if not (family_of p == family_of q)
      then ltb (family_of p) (family_of q)
      else if not (N.bits p == N.bits q)
      then ltb (N.bits p) (N.bits q)
      else N.less (N.addr p) (N.addr q)

  unfoldable pub insert_prefix : N.Prefix → List N.Prefix → List N.Prefix
  unfolding prefix_less
  insert_prefix p [] = p ∷ []
  insert_prefix p (q ∷ qs) =
      let rest = insert_prefix p qs in if prefix_less q p then q ∷ rest else p ∷ q ∷ qs

  unfoldable pub sort_prefixes : List N.Prefix → List N.Prefix
  unfolding insert_prefix
  sort_prefixes [] = []
  sort_prefixes (p ∷ ps) = insert_prefix p (sort_prefixes ps)

  -- The maps `seen` and `coverage`.
  pub record Tally : Type 0 where
    pub seen : List N.Prefix
    pub covered4 : ℕ
    pub covered6 : ℕ

  unfoldable pub covered : ℕ → Tally → ℕ
  covered family c = if family == 32 then c.covered4 else c.covered6

  unfoldable pub cover : N.Prefix → ℕ → Tally → Tally
  unfolding family_of
  cover p size c = record {
    seen = p ∷ c.seen;
    covered4 = if family_of p == 32 then c.covered4 + size else c.covered4;
    covered6 = if family_of p == 32 then c.covered6 else c.covered6 + size;
  }

  -- What follows `size`.
  unfoldable pub add_size : N.Prefix → Tally → ℕ → Outcome FeedError Tally
  unfolding cover covered limit_of family_of
  add_size p c size =
      if ltb (limit_of (family_of p)) (covered (family_of p) (cover p size c))
      then err too_much
      else ok (cover p size c)

  unfoldable pub count_prefix : N.Prefix → Tally → Option (Outcome FeedError Tally)
  unfolding double_from add_size family_of
  count_prefix p c = elim (double_from (family_of p + 1) (N.bits p) (family_of p) 1) [
    | none ↦ none
    | some size ↦ some (add_size p c size)
  ]

  -- A round of the loop, on a masked prefix.
  unfoldable pub cover_prefix : N.Prefix → Tally → Option (Outcome FeedError Tally)
  unfolding covered_from count_prefix minimum_of family_of
  cover_prefix p c = elim (covered_from (N.bits p + 2) (minimum_of (family_of p)) c.seen p) [
    | none ↦ none
    | some true ↦ some (ok c)
    | some false ↦ count_prefix p c
  ]

  unfoldable pub cover_each : List N.Prefix → Tally → Option (Outcome FeedError Tally)
  unfolding cover_prefix
  cover_each [] c = some (ok c)
  cover_each (p ∷ ps) c = elim (cover_prefix (N.masked p) c) [
    | none ↦ none
    | some (err e) ↦ some (err e)
    | some (ok next) ↦ cover_each ps next
  ]

  -- `validateAggregateCoverage`
  unfoldable pub validate_aggregate_coverage : List N.Prefix → Option (Outcome FeedError Tally)
  unfolding cover_each sort_prefixes
  validate_aggregate_coverage prefixes =
      cover_each (sort_prefixes prefixes) (record { seen = []; covered4 = 0; covered6 = 0 })
