-- ===== src/Wgconfig.antt =====
-- The provider profiles of WireGuard, internal/wgconfig/profile.go: the fields and their checks.
-- Opening the file safely and the summary's flag on its mode are not modelled.
pub mod Text
pub mod Fields
pub mod Parse
pub mod Print
pub mod Prefixes
pub mod Accepted
pub mod Roundtrip
mod Tests
use nft_firewall_v.Prelude.{
  ℕ, ◌+◌, String, Bool, true, false, not, ◌&&◌, ◌||◌, List, [], ◌∷◌, Option, none, some, Outcome,
  ok, err, ◌>>=◌, ◌>>◌, guard_against, if◌then◌else◌, ◌==◌, ltb, leb, codes, all_in, length,
  is_alnum,
}
use nft_firewall_v.Wgconfig.Text.{
  size, is_empty, text_eq, has, text_lt, trim, has_prefix, has_suffix, trim_suffix, split,
}

-- What `strconv.Atoi` reads.
pub data Number : Type 0 where
  plus minus : ℕ → Number

-- What is used of `net/netip`, `net`, `strconv` and `encoding/base64`.
pub record Library : Type 1 where
  pub Addr : Type 0
  pub Prefix : Type 0
  pub parse_addr : List ℕ → Option Addr
  pub addr_text : Addr → List ℕ
  pub is4 : Addr → Bool
  pub is_valid : Addr → Bool
  pub is_unspecified : Addr → Bool
  pub is_loopback : Addr → Bool
  pub is_multicast : Addr → Bool
  pub is_link_local_unicast : Addr → Bool
  pub parse_prefix : List ℕ → Option Prefix
  pub prefix_text : Prefix → List ℕ
  pub masked : Prefix → Prefix
  pub addr : Prefix → Addr
  pub bits : Prefix → ℕ
  pub split_host_port : List ℕ → Option (List ℕ × List ℕ)
  pub join_host_port : List ℕ → List ℕ → List ℕ
  pub atoi : List ℕ → Option Number
  pub parse_uint16 : List ℕ → Option ℕ
  pub itoa : ℕ → List ℕ
  pub decode_key : List ℕ → Option (List ℕ)
  pub encode_key : List ℕ → List ℕ

unfoldable pub max_profile_bytes : ℕ
max_profile_bytes = 65536

-- `r == '-' || r >= 'a' && r <= 'z' || …`
unfoldable pub is_label_char : ℕ → Bool
is_label_char c = c == b'-' || is_alnum c

unfoldable pub is_label : List ℕ → Bool
unfolding is_empty size has_prefix has_suffix is_label_char all_in
is_label t =
    not (is_empty t || ltb 63 (size t) || has_prefix b'-' t || has_suffix b'-' t)
    && all_in is_label_char t

unfoldable pub all_labels : List (List ℕ) → Bool
unfolding is_label
all_labels [] = true
all_labels (t ∷ ts) = is_label t && all_labels ts

-- `strings.ContainsAny(host, " /\\\t\r\n")`
unfoldable pub contains_any : List ℕ → Bool
contains_any [] = false
contains_any (c ∷ cs) =
    c == 32 || c == b'/' || c == 92 || c == 9 || c == 13 || c == 10 || contains_any cs

unfoldable pub valid_host_name : List ℕ → Bool
unfolding is_empty size contains_any all_labels split trim_suffix
valid_host_name host =
    not (is_empty host || ltb 253 (size host) || contains_any host)
    && all_labels (split b'.' (trim_suffix b'.' host))

unfoldable pub is_interface_char : ℕ → Bool
is_interface_char c = c == b'-' || c == b'_' || c == b'.' || is_alnum c

-- `validInterfaceName`
unfoldable pub valid_interface_name : List ℕ → Bool
unfolding size is_interface_char all_in
valid_interface_name t = leb 1 (size t) && leb (size t) 15 && all_in is_interface_char t

module _ (L : Library) where
  -- `usableAddress`
  unfoldable pub usable_address : L.Addr → Bool
  usable_address a =
      L.is_valid a
      && not (L.is_unspecified a)
      && not (L.is_loopback a)
      && not (L.is_multicast a)
      && not (L.is_link_local_unicast a)

  -- The test of an IPv4 address on the uses of this file.
  unfoldable pub usable4 : L.Addr → Bool
  unfolding usable_address
  usable4 a = L.is4 a && usable_address a

  -- `validEndpointHost`
  unfoldable pub valid_endpoint_host : List ℕ → Bool
  unfolding usable4 valid_host_name
  valid_endpoint_host host = elim (L.parse_addr host) [
    | some a ↦ usable4 a
    | none ↦ valid_host_name host
  ]

  -- `validKey`
  unfoldable pub valid_key : List ℕ → Bool
  unfolding text_eq
  valid_key value = elim (L.decode_key value) [
    | none ↦ false
    | some bytes ↦ length bytes == 32 && text_eq (L.encode_key bytes) value
  ]

  pub record Peer : Type 0 where
    pub public_key : List ℕ
    pub preshared_key : List ℕ
    pub allowed_ips : List L.Prefix
    pub endpoint_host : List ℕ
    pub endpoint_port : ℕ
    pub persistent_keepalive : ℕ

  pub record Profile : Type 0 where
    pub private_key : List ℕ
    pub addresses : List L.Prefix
    pub dns : List L.Addr
    pub mtu : ℕ
    pub peer : Peer

  -- The loop of `validate` on the addresses.
  unfoldable pub usable_prefixes : List L.Prefix → Bool
  unfolding usable4
  usable_prefixes [] = true
  usable_prefixes (p ∷ ps) =
      L.is4 (L.addr p) && not (L.bits p == 0) && usable_address (L.addr p) && usable_prefixes ps

  unfoldable pub keys_valid : Profile → Bool
  unfolding valid_key is_empty
  keys_valid p =
      valid_key p.private_key
      && valid_key p.peer.public_key
      && (is_empty p.peer.preshared_key || valid_key p.peer.preshared_key)

  unfoldable pub required_missing : Profile → Bool
  unfolding is_empty
  required_missing p =
      length p.addresses == 0
      || length p.peer.allowed_ips == 0
      || is_empty p.peer.endpoint_host
      || p.peer.endpoint_port == 0

  -- The end of `validate`, on `AllowedIPs`.
  unfoldable pub default_route : List L.Prefix → Outcome String (Unit {0})
  default_route (q ∷ []) =
      if not (L.is4 (L.addr q))
      then err "VPN_PROFILE_IPV6_UNSUPPORTED"
      else guard_against (not (L.bits q == 0)) "VPN_PROFILE_SPLIT_TUNNEL_UNSUPPORTED"
  default_route [] = err "VPN_PROFILE_DEFAULT_ROUTE_REQUIRED"
  default_route (q ∷ r ∷ qs) = err "VPN_PROFILE_DEFAULT_ROUTE_REQUIRED"

  -- `validate`
  unfoldable pub validate : Profile → Outcome String (Unit {0})
  unfolding keys_valid required_missing usable_prefixes default_route
  validate p = do
    guard_against (not (keys_valid p)) "VPN_PROFILE_KEY_INVALID"
    guard_against (required_missing p) "VPN_PROFILE_REQUIRED_FIELD_MISSING"
    guard_against (not (usable_prefixes p.addresses)) "VPN_PROFILE_ADDRESS_UNSUPPORTED"
    default_route p.peer.allowed_ips
