-- ===== src/Policy/Explain.antt =====
-- internal/policy/model.go: `ExplainEffective` and what it asks of addresses.
use Prim.Native.String.{◌++◌}
use nft_firewall_v.Prelude.{
  String, Bool, false, not, ◌&&◌, ◌||◌, Option, none, some, List, [], ◌∷◌, if◌then◌else◌, str_eq,
}
use nft_firewall_v.Policy.{
  NetIp, Zone, Policy, Interface, Config, Effective, Query, RuntimeContext, Decision, find,
  is_empty_or_host, zone_matches, sorted_policies, decides, service_covers, is_trusted_service,
}

-- The loop over the sorted policies.
unfoldable pub first_match : (Policy → Bool) → List Policy → Option Policy
first_match test [] = none
first_match test (p ∷ ps) = if test p then some p else first_match test ps

unfoldable pub decided : Query → String → Option Policy → Decision
decided q zone (some p) = record {
  action = p.action;
  matched = some p;
  source_zone = zone;
  destination = q.to;
  reason =
      p.from ++ (" -> " ++ (p.to ++ (", service " ++ (p.service ++ (", action " ++ p.action)))));
  rule = "nftfw-policy:" ++ p.name;
}
decided q zone none = record {
  action = "deny";
  matched = none;
  source_zone = zone;
  destination = q.to;
  reason = "no allow policy matched; default deny";
  rule = "nftfw:default-deny";
}

unfoldable pub fixed : Query → String → String → String → String → Decision
fixed q zone action reason rule = record {
  action = action;
  matched = none;
  source_zone = zone;
  destination = q.to;
  reason = reason;
  rule = rule;
}

module _ (n : NetIp) where
  -- Whether the text is an address of which the test holds.
  unfoldable pub address_is : (n.Addr → Bool) → Option n.Addr → Bool
  address_is test none = false
  address_is test (some a) = test a

  unfoldable pub prefix_contains : Option n.Prefix → n.Addr → Bool
  prefix_contains none a = false
  prefix_contains (some p) a = n.contains p a

  unfoldable pub address_in_prefixes : List String → n.Addr → Bool
  unfolding prefix_contains
  address_in_prefixes [] a = false
  address_in_prefixes (raw ∷ rest) a =
      prefix_contains (n.parse_prefix raw) a || address_in_prefixes rest a

  unfoldable pub zone_with : n.Addr → List Zone → Option String
  unfolding address_in_prefixes
  zone_with a [] = none
  zone_with a (z ∷ zs) = if address_in_prefixes z.networks a then some z.name else zone_with a zs

  unfoldable pub interface_zone : n.Addr → List Interface → String
  unfolding address_in_prefixes
  interface_zone a [] = "unknown"
  interface_zone a (i ∷ rest) =
      if address_in_prefixes i.cidrs a && not (str_eq i.zone "")
      then i.zone
      else interface_zone a rest

  unfoldable pub address_zone : Config → Option n.Addr → String
  unfolding zone_with interface_zone
  address_zone c none = "unknown"
  address_zone c (some a) = elim (zone_with a c.zones) [
    | some z ↦ z
    | none ↦ interface_zone a c.interfaces
  ]

  unfoldable pub named_zone : Option Zone → String → String → String
  named_zone none raw otherwise = otherwise
  named_zone (some z) raw otherwise = raw

  -- `sourceZone`
  unfoldable pub source_zone : Effective → String → String
  unfolding is_empty_or_host find named_zone address_zone
  source_zone e raw =
      if is_empty_or_host raw
      then "host"
      else named_zone (find raw e.zones) raw (address_zone e.config (n.parse_addr raw))

  unfoldable pub zone_has : Option Zone → Option n.Addr → Bool
  unfolding address_is address_in_prefixes
  zone_has none a = false
  zone_has (some z) a = address_is (address_in_prefixes z.networks) a

  -- `destMatches`
  unfoldable pub dest_matches : String → String → Effective → Bool
  unfolding is_empty_or_host find zone_has
  dest_matches want actual e =
      (str_eq want "any" || str_eq want actual)
      || ((str_eq want "host" && is_empty_or_host actual)
          || zone_has (find want e.zones) (n.parse_addr actual))

  -- Whether a policy decides on the flow.
  unfoldable pub applies : Effective → Query → String → Policy → Bool
  unfolding decides dest_matches zone_matches service_covers find
  applies e q zone p =
      decides p
      && (zone_matches p.from zone q.from
          && (dest_matches p.to q.to e && service_covers (find p.service e.svcs) q))

  -- `ExplainEffective`
  unfoldable pub explain_effective : Effective → Query → RuntimeContext → Decision
  unfolding source_zone address_is address_in_prefixes is_trusted_service applies sorted_policies
      first_match decided fixed
  explain_effective e q r =
      let zone = source_zone e q.from in
      let from = n.parse_addr q.from in
      let to = n.parse_addr q.to in
      if address_is n.is_loopback from || address_is n.is_loopback to
      then fixed q zone "allow" "loopback traffic is explicitly allowed" "nftfw:loopback"
      else if str_eq e.config.ipv6_mode "disabled" && (address_is n.is6 from || address_is n.is6 to)
      then fixed q zone "deny" "IPv6 mode is disabled" "nftfw:ipv6-mode-disabled"
      else if address_is (address_in_prefixes r.blocked_prefixes) from
      then fixed q zone "deny" "source address has an active block claim" "nftfw:block-source"
      else if address_is (address_in_prefixes r.blocked_prefixes) to
      then fixed q zone "deny" "destination address has an active block claim"
          "nftfw:block-destination"
      else if str_eq q.to "host"
          && (address_is (address_in_prefixes r.trusted_prefixes) from
              && is_trusted_service e q.protocol q.port)
      then fixed q zone "allow"
          "source has an active temporary access lease for this trusted service"
          "nftfw:trusted-services"
      else decided q zone (first_match (applies e q zone) (sorted_policies e.config.policies))
