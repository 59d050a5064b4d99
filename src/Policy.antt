-- ===== src/Policy.antt =====
-- internal/policy/model.go: which policy decides on a flow, and why. The addresses of `net/netip`
-- are a parameter, `NetIp`. The configuration has the fields that are read here.
pub mod Explain
pub mod Sorted
pub mod Verdict
pub mod Order
mod Tests
use Prim.Native.String.{◌++◌}
use nft_firewall_v.Prelude.{
  ℕ, String, Bool, true, false, not, ◌&&◌, ◌||◌, Option, none, some, List, [], ◌∷◌, if◌then◌else◌,
  ◌==◌, str_eq, str_lt,
}

-- What is used of `net/netip`.
pub record NetIp : Type 1 where
  pub Addr : Type 0
  pub Prefix : Type 0
  pub parse_addr : String → Option Addr
  pub parse_prefix : String → Option Prefix
  pub contains : Prefix → Addr → Bool
  pub is_loopback : Addr → Bool
  pub is6 : Addr → Bool

pub record Zone : Type 0 where
  pub name : String
  pub networks : List String

pub record Service : Type 0 where
  pub name : String
  pub protocol : String
  pub ports : List ℕ

pub record Policy : Type 0 where
  pub name : String
  pub from : String
  pub to : String
  pub service : String
  pub action : String

pub record Interface : Type 0 where
  pub zone : String
  pub cidrs : List String

pub record Config : Type 0 where
  pub ipv6_mode : String
  pub interfaces : List Interface
  pub zones : List Zone
  pub services : List Service
  pub policies : List Policy
  pub trusted_services : List String

-- The maps are lists of keys and values, the last write of a key first.
pub record Effective : Type 0 where
  pub config : Config
  pub zones : List (String × Zone)
  pub svcs : List (String × Service)

unfoldable pub find {ℓ} : {A : Type ℓ} → String → List (String × A) → Option A
find k [] = none
find k ((key, a) ∷ rest) = if str_eq key k then some a else find k rest

unfoldable pub zone_map : List (String × Zone) → List Zone → List (String × Zone)
zone_map m [] = m
zone_map m (z ∷ zs) = zone_map ((z.name, z) ∷ m) zs

unfoldable pub service_map : List (String × Service) → List Service → List (String × Service)
service_map m [] = m
service_map m (s ∷ ss) = service_map ((s.name, s) ∷ m) ss

-- What `Compile` makes of a configuration that `config.Validate` has accepted.
unfoldable pub effective : Config → Effective
unfolding zone_map service_map
effective c = record { config = c; zones = zone_map [] c.zones; svcs = service_map [] c.services }

pub record Query : Type 0 where
  pub from : String
  pub to : String
  pub protocol : String
  pub port : ℕ

pub record RuntimeContext : Type 0 where
  pub blocked_prefixes : List String
  pub trusted_prefixes : List String

pub record Decision : Type 0 where
  pub action : String
  pub matched : Option Policy
  pub source_zone : String
  pub destination : String
  pub reason : String
  pub rule : String

unfoldable pub contains_port : List ℕ → ℕ → Bool
contains_port [] port = false
contains_port (p ∷ ps) port = p == port || contains_port ps port

unfoldable pub is_empty_or_host : String → Bool
is_empty_or_host raw = str_eq raw "" || str_eq raw "host"

unfoldable pub zone_matches : String → String → String → Bool
unfolding is_empty_or_host
zone_matches want actual raw =
    (str_eq want "any" || str_eq want actual) || (str_eq want "host" && is_empty_or_host raw)

-- The order of `SortedPolicies`: what denies comes first.
unfoldable pub policy_less : Policy → Policy → Bool
policy_less a b = if str_eq a.action b.action then str_lt a.name b.name else str_eq a.action "deny"

unfoldable pub insert_policy : Policy → List Policy → List Policy
unfolding policy_less
insert_policy a [] = a ∷ []
insert_policy a (b ∷ rest) = if policy_less b a then b ∷ insert_policy a rest else a ∷ b ∷ rest

-- `SortedPolicies`
unfoldable pub sorted_policies : List Policy → List Policy
unfolding insert_policy
sorted_policies [] = []
sorted_policies (p ∷ ps) = insert_policy p (sorted_policies ps)

-- The policies that the loop does not pass over.
unfoldable pub decides : Policy → Bool
decides p = str_eq p.action "allow" || str_eq p.action "deny"

unfoldable pub service_covers : Option Service → Query → Bool
service_covers none q = false
service_covers (some s) q =
    (str_eq s.protocol "any" || str_eq s.protocol q.protocol)
    && (str_eq s.protocol "any" || (str_eq s.protocol "icmp" || contains_port s.ports q.port))

unfoldable pub trusted_covers : Option Service → String → ℕ → Bool
trusted_covers none protocol port = false
trusted_covers (some s) protocol port =
    str_eq s.protocol protocol && (str_eq protocol "icmp" || contains_port s.ports port)

unfoldable pub trusted_each : List (String × Service) → List String → String → ℕ → Bool
unfolding find trusted_covers
trusted_each svcs [] protocol port = false
trusted_each svcs (name ∷ names) protocol port =
    trusted_covers (find name svcs) protocol port || trusted_each svcs names protocol port

-- `isTrustedService`
unfoldable pub is_trusted_service : Effective → String → ℕ → Bool
unfolding trusted_each
is_trusted_service e protocol port = trusted_each e.svcs e.config.trusted_services protocol port
