-- ===== src/Policy/Tests.antt =====
-- The theorems on the policies at a small network of two hosts.
use mathlib.Core.List.Permᴰ
use nft_firewall_v.Prelude.{
  ℕ, String, true, false, ◌≡◌, refl, Option, none, some, List, [], ◌∷◌, if◌then◌else◌, ◌==◌, str_eq,
  str_lt,
}
use nft_firewall_v.Policy.{
  NetIp, Policy, Effective, Query, RuntimeContext, find, zone_map, service_map, effective,
  contains_port, is_empty_or_host, zone_matches, policy_less, insert_policy, sorted_policies,
  decides, service_covers, trusted_covers, trusted_each, is_trusted_service,
}
use nft_firewall_v.Policy.Explain.{
  address_is, prefix_contains, address_in_prefixes, zone_with, interface_zone, address_zone,
  named_zone, source_zone, zone_has, dest_matches, applies, first_match, decided, fixed,
  explain_effective,
}
use nft_firewall_v.Policy.Sorted.{denies}
use nft_firewall_v.Policy.Verdict.{verdict, allowed, explain_effective-allowed}
use nft_firewall_v.Policy.Order.{with_policies, explain_effective-Perm, explain_effective_without}

-- Addresses are numbers, and a prefix has one.
number : String → Option ℕ
number raw =
    if str_eq raw "10.0.0.5" then some 5 else if str_eq raw "127.0.0.1" then some 127 else none

abbrev net : NetIp
unfolding number
net = record {
  Addr = ℕ;
  Prefix = ℕ;
  parse_addr = number;
  parse_prefix = number;
  contains = λ p a. p == a;
  is_loopback = λ a. a == 127;
  is6 = λ a. false;
}

abbrev ssh_from_lan : Policy
ssh_from_lan = record {
  name = "lan-ssh";
  from = "lan";
  to = "host";
  service = "ssh";
  action = "allow";
}

abbrev no_ssh : Policy
no_ssh = record { name = "no-ssh"; from = "any"; to = "host"; service = "ssh"; action = "deny" }

abbrev network : Effective
network = effective record {
  ipv6_mode = "disabled";
  interfaces = [];
  zones = record { name = "lan"; networks = "10.0.0.5" ∷ [] } ∷ [];
  services = record { name = "ssh"; protocol = "tcp"; ports = 22 ∷ [] } ∷ [];
  policies = ssh_from_lan ∷ [];
  trusted_services = [];
}

abbrev query : Query
query = record { from = "10.0.0.5"; to = "host"; protocol = "tcp"; port = 22 }

abbrev quiet : RuntimeContext
quiet = record { blocked_prefixes = []; trusted_prefixes = [] }

explain_effective-allowed_example :
    (explain_effective net network query quiet).action ≡ verdict (allowed net network query quiet)
explain_effective-allowed_example = explain_effective-allowed net network query quiet

abbrev action_with : List Policy → String
action_with ps = (explain_effective net (with_policies network ps) query quiet).action

explain_effective-Perm_example :
    action_with (no_ssh ∷ ssh_from_lan ∷ []) ≡ action_with (ssh_from_lan ∷ no_ssh ∷ [])
explain_effective-Perm_example =
    explain_effective-Perm net network query quiet (no_ssh ∷ ssh_from_lan ∷ [])
      (ssh_from_lan ∷ no_ssh ∷ []) ∣ Permᴰ.swap refl refl ∣₁

abbrev no_mail : Policy
no_mail = record { name = "no-mail"; from = "any"; to = "host"; service = "mail"; action = "deny" }

is_allowed : action_with (no_mail ∷ ssh_from_lan ∷ []) ≡ "allow"
unfolding number effective zone_map service_map find explain_effective contains_port
    is_empty_or_host zone_matches policy_less insert_policy sorted_policies decides service_covers
    trusted_covers trusted_each is_trusted_service address_is prefix_contains address_in_prefixes
    zone_with interface_zone address_zone named_zone source_zone zone_has dest_matches applies
    first_match decided fixed str_lt
is_allowed = refl

no_mail-denies : denies no_mail ≡ true
unfolding denies
no_mail-denies = refl

explain_effective_without_example : action_with (ssh_from_lan ∷ []) ≡ "allow"
explain_effective_without_example =
    explain_effective_without net network query quiet no_mail (ssh_from_lan ∷ []) no_mail-denies
      is_allowed
