-- ===== src/Wgconfig/Print.antt =====
-- internal/wgconfig/profile.go: the texts that are given to wg-quick and to wg.
use nft_firewall_v.Prelude.{
  ℕ, String, Bool, true, false, not, List, [], ◌∷◌, ◌++◌, Outcome, ok, ◌>>◌, guard_against, ◌==◌,
  ltb, codes, length,
}
use nft_firewall_v.Wgconfig.Text.{is_empty, join, write_lines}
use nft_firewall_v.Wgconfig.{Library, Profile, validate, valid_interface_name, usable4}

unfoldable pub field_line : List ℕ → List ℕ → List ℕ
field_line key value = key ++ (32 ∷ b'=' ∷ 32 ∷ value)

-- A line that is written on a condition, before the rest.
unfoldable pub optional : Bool → List ℕ → List (List ℕ) → List (List ℕ)
optional true line rest = line ∷ rest
optional false line rest = rest

module _ (L : Library) where
  unfoldable pub address_texts : List L.Addr → List (List ℕ)
  address_texts [] = []
  address_texts (a ∷ found) = L.addr_text a ∷ address_texts found

  unfoldable pub prefix_texts : List L.Prefix → List (List ℕ)
  prefix_texts [] = []
  prefix_texts (p ∷ ps) = L.prefix_text p ∷ prefix_texts ps

  unfoldable pub endpoint_lines : Profile L → List ℕ → List (List ℕ)
  unfolding field_line optional
  endpoint_lines p host =
      field_line (codes "AllowedIPs") (codes "0.0.0.0/0")
      ∷ field_line (codes "Endpoint") (L.join_host_port host (L.itoa p.peer.endpoint_port))
      ∷ optional (not (p.peer.persistent_keepalive == 0))
          (field_line (codes "PersistentKeepalive") (L.itoa p.peer.persistent_keepalive)) []

  -- The lines from "[Peer]" on; `host` is the one of the endpoint.
  unfoldable pub peer_lines : Profile L → List ℕ → List (List ℕ)
  unfolding field_line optional is_empty endpoint_lines
  peer_lines p host =
      codes "[Peer]"
      ∷ field_line (codes "PublicKey") p.peer.public_key
      ∷ optional (not (is_empty p.peer.preshared_key))
          (field_line (codes "PresharedKey") p.peer.preshared_key) (endpoint_lines p host)

  -- `Table` and what follows.
  unfoldable pub table_lines : Profile L → List (List ℕ)
  unfolding field_line peer_lines
  table_lines p = field_line (codes "Table") (codes "off") ∷ [] ∷ peer_lines p p.peer.endpoint_host

  unfoldable pub mtu_lines : Profile L → List (List ℕ)
  unfolding field_line optional table_lines
  mtu_lines p =
      optional (not (p.mtu == 0)) (field_line (codes "MTU") (L.itoa p.mtu)) (table_lines p)

  -- The lines of `NormalizedWGQuick`.
  unfoldable pub normalized_lines : Profile L → List (List ℕ)
  unfolding field_line optional prefix_texts address_texts join mtu_lines
  normalized_lines p =
      codes "[Interface]"
      ∷ field_line (codes "PrivateKey") p.private_key
      ∷ field_line (codes "Address") (join (prefix_texts p.addresses))
      ∷ optional (ltb 0 (length p.dns)) (field_line (codes "DNS") (join (address_texts p.dns)))
          (mtu_lines p)

  -- `NormalizedWGQuick`
  unfoldable pub normalized_wg_quick : Profile L → List ℕ → Outcome String (List ℕ)
  unfolding normalized_lines write_lines validate valid_interface_name
  normalized_wg_quick p interface_name = do
    guard_against (not (valid_interface_name interface_name)) "VPN_INTERFACE_INVALID"
    validate L p
    ok (write_lines (normalized_lines p))

  -- `WGSetConfig`
  unfoldable pub set_config_lines : Profile L → L.Addr → List (List ℕ)
  unfolding field_line peer_lines
  set_config_lines p a =
      codes "[Interface]"
      ∷ field_line (codes "PrivateKey") p.private_key
      ∷ []
      ∷ peer_lines p (L.addr_text a)

  unfoldable pub wg_set_config : Profile L → L.Addr → Outcome String (List ℕ)
  unfolding set_config_lines write_lines validate usable4
  wg_set_config p endpoint_address = do
    guard_against (not (usable4 L endpoint_address)) "VPN_ENDPOINT_ADDRESS_INVALID"
    validate L p
    ok (write_lines (set_config_lines p endpoint_address))
