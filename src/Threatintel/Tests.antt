-- ===== src/Threatintel/Tests.antt =====
-- The theorems on feeds at a small library and a feed of two entries.
use nft_firewall_v.Prelude.{
  ℕ, true, false, ◌≡◌, refl, List, [], ◌∷◌, Option, none, some, Outcome, ok, ◌==◌, ==_iff, ltb,
  codes, All, guard_against, if◌then◌else◌,
}
use nft_firewall_v.Wgconfig.Text.{text_eq, write_lines}
use nft_firewall_v.Threatintel.Coverage.{
  NetIp, FeedError, min_ipv4_feed_bits, min_ipv6_feed_bits, minimum_of, limit_of, double_from,
  has_prefix, family_of, ancestor, covered_from, prefix_less, insert_prefix, sort_prefixes, covered,
  cover, add_size, count_prefix, cover_prefix, cover_each, validate_aggregate_coverage,
}
use nft_firewall_v.Threatintel.Coverage.Bounded.{IsBounded}
use nft_firewall_v.Threatintel.{
  non_public_feed_networks, overlaps_any, is_public_address, is_narrow, is_public_feed_prefix,
  parse_entry, read_addresses, read_protected, overlaps_kept, any_overlaps, read_feed,
  settle_coverage, count_feed, validate_feed, parse_feed,
}
use nft_firewall_v.Threatintel.Accepted.{IsAllowed, validate_feed-IsAllowed}
use nft_firewall_v.Threatintel.Parsed.{IsSettled, parse_feed-ends}

-- Prefixes are numbers: 24 public ones of 24 bits, and a private one.
number : List ℕ → Option ℕ
unfolding text_eq
number t =
    if text_eq t (codes "8.8.8.0/24")
    then some 8
    else if text_eq t (codes "9.9.9.0/24")
    then some 9
    else none

abbrev net : NetIp
net = record {
  Addr = ℕ;
  Prefix = ℕ;
  parse_prefix = number;
  must_parse_prefix = λ t. 10;
  parse_addr = number;
  prefix_from = λ a bits. if bits == 24 then a else 0;
  prefix_text = λ p. p ∷ [];
  masked = λ p. p;
  addr = λ p. p;
  bits = λ p. 24;
  bit_len = λ a. 32;
  less = ltb;
  same = λ p q. p == q;
  overlaps = λ p q. p == q;
  contains = λ p a. true;
  is_valid = λ p. true;
  is4 = λ a. true;
  is4_in6 = λ a. false;
  is_global_unicast = λ a. true;
  is_private = λ a. a == 10;
  is_loopback = λ a. false;
  is_link_local_unicast = λ a. false;
  is_multicast = λ a. false;
  is_unspecified = λ a. false;
}

abbrev feed : List (List ℕ)
feed = codes "8.8.8.0/24" ∷ codes "8.8.8.0/24" ∷ []

abbrev management : List (List ℕ)
management = codes "9.9.9.0/24" ∷ []

same_number : (p : ℕ) → (p == p) ≡ true
same_number p = (==_iff p p).1 refl

feed_accepted : validate_feed net feed management ≡ some (ok tt)
unfolding validate_feed count_feed settle_coverage read_feed read_addresses read_protected
    parse_entry is_public_feed_prefix is_public_address is_narrow overlaps_any
    non_public_feed_networks any_overlaps overlaps_kept number text_eq guard_against
    min_ipv4_feed_bits min_ipv6_feed_bits minimum_of limit_of double_from has_prefix family_of
    ancestor covered_from prefix_less insert_prefix sort_prefixes covered cover add_size
    count_prefix cover_prefix cover_each validate_aggregate_coverage
feed_accepted = refl

validate_feed-IsAllowed_example :
    (kept : List ℕ) × IsBounded net kept × All (IsAllowed net kept management) feed
validate_feed-IsAllowed_example =
    validate_feed-IsAllowed net same_number feed management feed_accepted

abbrev body : List ℕ
body = write_lines (codes "8.8.8.0/24 # a resolver" ∷ [] ∷ codes "9.9.9.0/24" ∷ [])

parse_feed-ends_example :
    (outcome : Outcome FeedError (List (List ℕ))) × (parse_feed net body 5 ≡ some outcome)
    × IsSettled net 5 outcome
parse_feed-ends_example = parse_feed-ends net body 5
