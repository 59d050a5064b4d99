-- ===== src/Wgconfig/Fields.antt =====
-- internal/wgconfig/profile.go: `assign` and the lists that it reads.
use nft_firewall_v.Prelude.{
  ℕ, String, Bool, true, false, not, ◌&&◌, ◌||◌, List, [], ◌∷◌, ◌++◌, Option, none, some, Outcome,
  ok, err, ◌>>=◌, if◌then◌else◌, ◌==◌, ltb, codes,
}
use nft_firewall_v.Wgconfig.Text.{is_empty, text_eq, has, text_lt, trim, split}
use nft_firewall_v.Wgconfig.{
  Number, plus, minus, Library, usable4, valid_endpoint_host, Peer, Profile,
}

-- The cases of the `switch` on the section and the key.
pub data Field : Type 0 where
  private_key address dns mtu public_key preshared_key allowed_ips endpoint : Field
  persistent_keepalive table command unsupported : Field

unfoldable pub is_command : List ℕ → Bool
unfolding text_eq
is_command t =
    text_eq t (codes "Interface.PreUp")
    || text_eq t (codes "Interface.PostUp")
    || text_eq t (codes "Interface.PreDown")
    || text_eq t (codes "Interface.PostDown")
    || text_eq t (codes "Interface.SaveConfig")

unfoldable pub field_of : List ℕ → Field
unfolding text_eq is_command
field_of t =
    if text_eq t (codes "Interface.PrivateKey")
    then private_key
    else if text_eq t (codes "Interface.Address")
    then address
    else if text_eq t (codes "Interface.DNS")
    then dns
    else if text_eq t (codes "Interface.MTU")
    then mtu
    else if text_eq t (codes "Peer.PublicKey")
    then public_key
    else if text_eq t (codes "Peer.PresharedKey")
    then preshared_key
    else if text_eq t (codes "Peer.AllowedIPs")
    then allowed_ips
    else if text_eq t (codes "Peer.Endpoint")
    then endpoint
    else if text_eq t (codes "Peer.PersistentKeepalive")
    then persistent_keepalive
    else if text_eq t (codes "Interface.Table")
    then table
    else if is_command t
    then command
    else unsupported

-- The loop of `splitList`.
unfoldable pub trim_items : List (List ℕ) → Option (List (List ℕ))
unfolding trim is_empty
trim_items [] = some []
trim_items (t ∷ ts) =
    let rest = trim_items ts in
    if is_empty (trim t) then none else elim rest [ none ↦ none | some us ↦ some (trim t ∷ us) ]

-- `splitList`; `strings.Split` at a comma gives at least one part.
unfoldable pub split_list : List ℕ → Option (List (List ℕ))
unfolding trim_items split
split_list value = trim_items (split b',' value)

unfoldable pub in_range : ℕ → ℕ → Option Number → Option ℕ
in_range low high none = none
in_range low high (some (minus n)) = none
in_range low high (some (plus n)) = if ltb n low || ltb high n then none else some n

-- `if err != nil { return errors.New(code) }`
unfoldable pub or_error {ℓ} : {A : Type ℓ} → String → Option A → Outcome String A
or_error code none = err code
or_error code (some a) = ok a

module _ (L : Library) where
  unfoldable pub insert_prefix : L.Prefix → List L.Prefix → List L.Prefix
  unfolding text_lt
  insert_prefix p [] = p ∷ []
  insert_prefix p (q ∷ qs) =
      let rest = insert_prefix p qs in
      if text_lt (L.prefix_text q) (L.prefix_text p) then q ∷ rest else p ∷ q ∷ qs

  -- The order of `sort.Slice`; the texts differ.
  unfoldable pub sort_prefixes : List L.Prefix → List L.Prefix
  unfolding insert_prefix
  sort_prefixes [] = []
  sort_prefixes (p ∷ ps) = insert_prefix p (sort_prefixes ps)

  -- The loop of `parsePrefixes`; `seen` is the map.
  unfoldable pub read_prefixes : Bool → List (List ℕ) → List (List ℕ) → Option (List L.Prefix)
  unfolding has
  read_prefixes mask seen [] = some []
  read_prefixes mask seen (raw ∷ raws) = elim (L.parse_prefix raw) [
    | none ↦ none
    | some parsed ↦
        let p = if mask then L.masked parsed else parsed in
        if has (L.prefix_text p) seen
        then none
        else elim (read_prefixes mask (L.prefix_text p ∷ seen) raws) [
          | none ↦ none
          | some ps ↦ some (p ∷ ps)
        ]
  ]

  -- `parsePrefixes`
  unfoldable pub parse_prefixes : List ℕ → Bool → Option (List L.Prefix)
  unfolding read_prefixes split_list sort_prefixes
  parse_prefixes value mask = elim (split_list value) [
    | none ↦ none
    | some raws ↦ elim (read_prefixes mask [] raws) [
      | none ↦ none
      | some ps ↦ some (sort_prefixes ps)
    ]
  ]

  -- The loop of the case "Interface.DNS".
  unfoldable pub read_servers : List (List ℕ) → Option (List L.Addr)
  unfolding usable4
  read_servers [] = some []
  read_servers (raw ∷ raws) = elim (L.parse_addr raw) [
    | none ↦ none
    | some a ↦
        let rest = read_servers raws in
        if usable4 L a then elim rest [ none ↦ none | some found ↦ some (a ∷ found) ] else none
  ]

  unfoldable pub parse_servers : List ℕ → Option (List L.Addr)
  unfolding read_servers split_list
  parse_servers value = elim (split_list value) [ none ↦ none | some raws ↦ read_servers raws ]

  unfoldable pub check_endpoint : List ℕ → Option ℕ → Option (List ℕ × ℕ)
  unfolding valid_endpoint_host
  check_endpoint host none = none
  check_endpoint host (some port) =
      if port == 0 || not (valid_endpoint_host L host) then none else some (host, port)

  -- The case "Peer.Endpoint".
  unfoldable pub parse_endpoint : List ℕ → Option (List ℕ × ℕ)
  unfolding check_endpoint is_empty
  parse_endpoint value = elim (L.split_host_port value) [
    | none ↦ none
    | some parts ↦
        if is_empty (parts.0) then none else check_endpoint (parts.0) (L.parse_uint16 (parts.1))
  ]

  unfoldable pub set_peer : Profile L → Peer L → Profile L
  set_peer p peer = record p { peer = peer }

  -- The cases of `assign` for a value that is not empty.
  unfoldable pub assign_field : Bool → Profile L → Field → List ℕ → Outcome String (Profile L)
  unfolding parse_prefixes parse_servers in_range parse_endpoint or_error text_eq set_peer
  assign_field managed p private_key value = ok (record p { private_key = value })
  assign_field managed p address value =
      or_error "VPN_PROFILE_ADDRESS_INVALID" (parse_prefixes value false) >>= λ ps.
      ok (record p { addresses = ps })
  assign_field managed p dns value =
      or_error "VPN_PROFILE_DNS_UNSUPPORTED" (parse_servers value) >>= λ found.
      ok (record p { dns = p.dns ++ found })
  assign_field managed p mtu value =
      or_error "VPN_PROFILE_MTU_INVALID" (in_range 576 9000 (L.atoi value)) >>= λ n.
      ok (record p { mtu = n })
  assign_field managed p public_key value = ok (set_peer p (record p.peer { public_key = value }))
  assign_field managed p preshared_key value =
      ok (set_peer p (record p.peer { preshared_key = value }))
  assign_field managed p allowed_ips value =
      or_error "VPN_PROFILE_ALLOWED_IPS_INVALID" (parse_prefixes value true) >>= λ ps.
      ok (set_peer p (record p.peer { allowed_ips = ps }))
  assign_field managed p endpoint value =
      or_error "VPN_PROFILE_ENDPOINT_INVALID" (parse_endpoint value) >>= λ e.
      ok (set_peer p (record p.peer { endpoint_host = e.0; endpoint_port = e.1 }))
  assign_field managed p persistent_keepalive value =
      or_error "VPN_PROFILE_KEEPALIVE_INVALID" (in_range 0 65535 (L.atoi value)) >>= λ n.
      ok (set_peer p (record p.peer { persistent_keepalive = n }))
  assign_field managed p table value =
      if managed && text_eq value (codes "off")
      then ok p
      else err "VPN_PROFILE_COMMAND_OR_ROUTE_UNSUPPORTED"
  assign_field managed p command value = err "VPN_PROFILE_COMMAND_OR_ROUTE_UNSUPPORTED"
  assign_field managed p unsupported value = err "VPN_PROFILE_FIELD_UNSUPPORTED"

  -- `assign`
  unfoldable pub assign : Bool → Profile L → List ℕ → List ℕ → Outcome String (Profile L)
  unfolding assign_field field_of is_empty
  assign managed p identity value =
      if is_empty value
      then err "VPN_PROFILE_VALUE_EMPTY"
      else assign_field managed p (field_of identity) value
