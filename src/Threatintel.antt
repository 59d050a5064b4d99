-- ===== src/Threatintel.antt =====
-- Feeds of addresses to block, internal/threatintel/feed.go: `Parse` on the text of a feed, and
-- `Validate`. Fetching a feed is not modelled.
pub mod Coverage
pub mod Accepted
pub mod Parsed
mod Tests
use nft_firewall_v.Prelude.{
  ℕ, ◌+◌, Bool, true, false, not, ◌&&◌, ◌||◌, List, [], ◌∷◌, ◌++◌, Option, none, some, Outcome, ok,
  err, if◌then◌else◌, ◌==◌, ltb, leb, length, codes, guard_against, ◌>>=◌, ◌>>◌,
}
use nft_firewall_v.Wgconfig.Text.{size, is_empty, has, trim, trim_suffix, before, split, drop_end}
use nft_firewall_v.Threatintel.Coverage.{
  NetIp, FeedError, Tally, invalid_entry, not_public, limit_exceeded, scan_failed, not_allowed,
  protected_invalid, overlaps_protected, min_ipv4_feed_bits, min_ipv6_feed_bits,
  validate_aggregate_coverage,
}

-- `nonPublicFeedNetworks`
unfoldable pub non_public_feed_networks : List (List ℕ)
non_public_feed_networks =
    codes "0.0.0.0/8"
    ∷ codes "10.0.0.0/8"
    ∷ codes "100.64.0.0/10"
    ∷ codes "127.0.0.0/8"
    ∷ codes "169.254.0.0/16"
    ∷ codes "172.16.0.0/12"
    ∷ codes "192.0.0.0/24"
    ∷ codes "192.0.2.0/24"
    ∷ codes "192.88.99.0/24"
    ∷ codes "192.168.0.0/16"
    ∷ codes "198.18.0.0/15"
    ∷ codes "198.51.100.0/24"
    ∷ codes "203.0.113.0/24"
    ∷ codes "224.0.0.0/4"
    ∷ codes "240.0.0.0/4"
    ∷ codes "::/96"
    ∷ codes "64:ff9b::/96"
    ∷ codes "64:ff9b:1::/48"
    ∷ codes "100::/64"
    ∷ codes "100:0:0:1::/64"
    ∷ codes "2001::/23"
    ∷ codes "2001:db8::/32"
    ∷ codes "2002::/16"
    ∷ codes "3fff::/20"
    ∷ codes "5f00::/16"
    ∷ codes "fc00::/7"
    ∷ codes "fe80::/10"
    ∷ codes "ff00::/8"
    ∷ []

unfoldable pub feed_limit : ℕ → ℕ
feed_limit max = if max == 0 then 10000 else max

module _ (N : NetIp) where
  unfoldable pub overlaps_any : N.Prefix → List (List ℕ) → Bool
  overlaps_any p [] = false
  overlaps_any p (t ∷ ts) = N.overlaps p (N.must_parse_prefix t) || overlaps_any p ts

  -- The tests of a masked prefix's address, and its size and range.
  unfoldable pub is_public_address : N.Addr → Bool
  is_public_address a =
      N.is_global_unicast a
      && not (N.is_private a)
      && not (N.is_loopback a)
      && not (N.is_link_local_unicast a)
      && not (N.is_multicast a)
      && not (N.is_unspecified a)

  unfoldable pub is_narrow : N.Prefix → Bool
  unfolding min_ipv4_feed_bits min_ipv6_feed_bits
  is_narrow p =
      if N.is4 (N.addr p)
      then leb min_ipv4_feed_bits (N.bits p)
      else leb min_ipv6_feed_bits (N.bits p)
        && N.contains (N.must_parse_prefix (codes "2000::/3")) (N.addr p)

  -- `isPublicFeedPrefix`
  unfoldable pub is_public_feed_prefix : N.Prefix → Bool
  unfolding is_public_address is_narrow overlaps_any non_public_feed_networks
  is_public_feed_prefix p =
      N.is_valid p
      && not (N.is4_in6 (N.addr p))
      && is_public_address (N.addr (N.masked p))
      && is_narrow (N.masked p)
      && not (overlaps_any (N.masked p) non_public_feed_networks)

  -- `parsePrefix`
  unfoldable pub parse_entry : List ℕ → Option N.Prefix
  parse_entry raw = elim (N.parse_prefix raw) [
    | some p ↦ some p
    | none ↦ elim (N.parse_addr raw) [ none ↦ none | some a ↦ some (N.prefix_from a (N.bit_len a)) ]
  ]

  -- The first loop of `Validate`.
  unfoldable pub read_addresses : List (List ℕ) → Outcome FeedError (List N.Prefix)
  unfolding parse_entry is_public_feed_prefix
  read_addresses [] = ok []
  read_addresses (raw ∷ raws) = elim (parse_entry raw) [
    | none ↦ err not_allowed
    | some p ↦ do
      guard_against (not (is_public_feed_prefix p)) not_allowed
      ps ← read_addresses raws
      ok (N.masked p ∷ ps)
  ]

  -- The second loop.
  unfoldable pub read_protected : List (List ℕ) → Outcome FeedError (List N.Prefix)
  unfolding parse_entry
  read_protected [] = ok []
  read_protected (raw ∷ raws) = elim (parse_entry raw) [
    | none ↦ err protected_invalid
    | some p ↦ do ps ← read_protected raws; ok (N.masked p ∷ ps)
  ]

  unfoldable pub overlaps_kept : N.Prefix → List N.Prefix → Bool
  overlaps_kept p [] = false
  overlaps_kept p (keep ∷ rest) = N.overlaps p keep || overlaps_kept p rest

  -- The third loop, with the inner one.
  unfoldable pub any_overlaps : List N.Prefix → List N.Prefix → Bool
  unfolding overlaps_kept
  any_overlaps [] kept = false
  any_overlaps (p ∷ ps) kept = overlaps_kept p kept || any_overlaps ps kept

  -- The tests of `Validate` before the one of the coverage.
  unfoldable pub read_feed : List (List ℕ) → List (List ℕ) → Outcome FeedError (List N.Prefix)
  unfolding read_addresses read_protected any_overlaps
  read_feed addresses protected = do
    ps ← read_addresses addresses
    kept ← read_protected protected
    guard_against (any_overlaps ps kept) overlaps_protected
    ok ps

  unfoldable pub settle_coverage :
      Option (Outcome FeedError (Tally N)) → Option (Outcome FeedError (Unit {0}))
  settle_coverage none = none
  settle_coverage (some (err e)) = some (err e)
  settle_coverage (some (ok coverage)) = some (ok tt)

  unfoldable pub count_feed :
      Outcome FeedError (List N.Prefix) → Option (Outcome FeedError (Unit {0}))
  unfolding settle_coverage validate_aggregate_coverage
  count_feed (err e) = some (err e)
  count_feed (ok ps) = settle_coverage (validate_aggregate_coverage N ps)

  -- `Validate`, `none` where a loop runs out of fuel.
  unfoldable pub validate_feed :
      List (List ℕ) → List (List ℕ) → Option (Outcome FeedError (Unit {0}))
  unfolding read_feed count_feed
  validate_feed addresses protected = count_feed (read_feed addresses protected)

  unfoldable pub add_entry : ℕ → List (List ℕ) → List ℕ → Outcome FeedError (List (List ℕ))
  unfolding has
  add_entry max result canonical =
      if has canonical result
      then ok result
      else if ltb max (length result + 1)
      then err limit_exceeded
      else ok (result ++ (canonical ∷ []))

  -- A line that is not empty.
  unfoldable pub read_entry : ℕ → ℕ → List (List ℕ) → List ℕ → Outcome FeedError (List (List ℕ))
  unfolding parse_entry is_public_feed_prefix add_entry
  read_entry number max result line = elim (parse_entry line) [
    | none ↦ err (invalid_entry number)
    | some p ↦ do
      guard_against (not (is_public_feed_prefix p)) (not_public number)
      add_entry max result (N.prefix_text (N.masked p))
  ]

  -- A round of the loop of `Parse`, on a line without its line feed.
  unfoldable pub read_raw : ℕ → ℕ → List (List ℕ) → List ℕ → Outcome FeedError (List (List ℕ))
  unfolding read_entry trim before trim_suffix size is_empty
  read_raw number max result raw =
      if leb 65536 (size raw)
      then err scan_failed
      else if is_empty (trim (before b'#' (trim_suffix 13 raw)))
      then ok result
      else read_entry number max result (trim (before b'#' (trim_suffix 13 raw)))

  unfoldable pub read_entries :
      ℕ → ℕ → List (List ℕ) → List (List ℕ) → Outcome FeedError (List (List ℕ))
  unfolding read_raw
  read_entries number max result [] = ok result
  read_entries number max result (raw ∷ rest) = elim (read_raw number max result raw) [
    | err e ↦ err e
    | ok next ↦ read_entries (number + 1) max next rest
  ]

  unfoldable pub accept_feed :
      List (List ℕ)
      → Option (Outcome FeedError (Unit {0}))
      → Option (Outcome FeedError (List (List ℕ)))
  accept_feed result none = none
  accept_feed result (some (err e)) = some (err e)
  accept_feed result (some (ok u)) = some (ok result)

  unfoldable pub finish_feed :
      Outcome FeedError (List (List ℕ)) → Option (Outcome FeedError (List (List ℕ)))
  unfolding accept_feed validate_feed
  finish_feed (err e) = some (err e)
  finish_feed (ok result) = accept_feed result (validate_feed result [])

  -- `Parse`, with a limit of 0 for one that is not positive.
  unfoldable pub parse_feed : List ℕ → ℕ → Option (Outcome FeedError (List (List ℕ)))
  unfolding read_entries finish_feed feed_limit drop_end split
  parse_feed body max = finish_feed (read_entries 1 (feed_limit max) [] (drop_end (split 10 body)))
