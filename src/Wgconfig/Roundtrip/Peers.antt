-- ===== src/Wgconfig/Roundtrip/Peers.antt =====
-- The section "[Peer]" that `NormalizedWGQuick` of internal/wgconfig/profile.go writes.
use nft_firewall_v.Prelude.{
  ℕ, Bool, true, false, not, ◌||◌, ◌≡◌, ◌∙◌, refl, ap, List, [], ◌∷◌, some, ◌==◌, arith, codes,
  length, guard_against, all_in,
}
use nft_firewall_v.Wgconfig.Text.{
  is_empty, text_eq, has, trim, trim_left, trim_right, has_prefix, has_suffix, is_space,
  trim_prefix, trim_suffix,
}
use nft_firewall_v.Wgconfig.Text.Laws.{lacks}
use nft_firewall_v.Wgconfig.Text.Plain.{IsClean, IsPlain-IsClean}
use nft_firewall_v.Wgconfig.{Library, Profile, Peer, required_missing}
use nft_firewall_v.Wgconfig.Fields.{
  assign_field, field_of, is_command, set_peer, or_error, parse_endpoint,
}
use nft_firewall_v.Wgconfig.Parse.{
  identity_of, read_lines, read_line, enter, empty_peer, empty_profile, is_skipped, is_header,
  header_name,
}
use nft_firewall_v.Wgconfig.Print.{peer_lines, endpoint_lines}
use nft_firewall_v.Wgconfig.Roundtrip.Lines.{IsKey}
use nft_firewall_v.Wgconfig.Roundtrip.Values.{
  IsLibrary, valid_key-IsClean, route_read, range_read, endpoint_read,
}
use nft_firewall_v.Wgconfig.Accepted.Profiles.{IsProfile, IsPartial, IsEndpoint}
use nft_firewall_v.Wgconfig.Accepted.Valid.{IsAccepted, validate-known, set_endpoint}
use nft_firewall_v.Wgconfig.Roundtrip.{reading, field_step, optional_step, add_if, has-add_if}
use nft_firewall_v.Wgconfig.Roundtrip.Written.{
  interface_name, peer_name, interface_profile, none_set, keys_known,
}

host_there : (a b c d : Bool) → (a || b || c || d) ≡ false → c ≡ false
host_there a b c d h = ground (arith, h)

pub preshared : (a b : Bool) → (a || b) ≡ true → not a ≡ true → b ≡ true
preshared a b h k = ground (arith, h, k)

nothing_there : (t : List ℕ) → not (is_empty t) ≡ false → [] ≡ t
unfolding is_empty
nothing_there [] h = refl
nothing_there (c ∷ cs) h = cc

route-IsClean : IsClean (codes "0.0.0.0/0")
unfolding IsClean trim_left trim_right is_space is_empty lacks
route-IsClean = (refl, refl, refl, refl, refl, refl)

-- None of the keys of a peer was seen.
unfoldable pub IsFresh : List (List ℕ) → Type 0
IsFresh ks =
    (has (codes "Peer.PublicKey") ks ≡ false)
    × (has (codes "Peer.PresharedKey") ks ≡ false)
    × (has (codes "Peer.AllowedIPs") ks ≡ false)
    × (has (codes "Peer.Endpoint") ks ≡ false)
    × (has (codes "Peer.PersistentKeepalive") ks ≡ false)

module _ (L : Library) (known : IsLibrary L) (p : Profile L) where
  abbrev with_peer : Peer L → Profile L
  with_peer peer = record p { peer = peer }

  abbrev first_peer : Peer L
  first_peer = record (empty_peer L) { public_key = p.peer.public_key }

  abbrev second_peer : Peer L
  second_peer = record first_peer { preshared_key = p.peer.preshared_key }

  abbrev third_peer : Peer L
  third_peer = record second_peer { allowed_ips = p.peer.allowed_ips }

  abbrev fourth_peer : Peer L
  fourth_peer = record third_peer {
    endpoint_host = p.peer.endpoint_host;
    endpoint_port = p.peer.endpoint_port;
  }

  peer_header :
      (ks rest : List (List ℕ))
      → read_lines L true
          (reading L (with_peer (empty_peer L)) interface_name (interface_name ∷ []) ks)
          (codes "[Peer]" ∷ rest)
        ≡ read_lines L true
            (reading L (with_peer (empty_peer L)) peer_name (peer_name ∷ interface_name ∷ []) ks)
            rest
  unfolding read_lines read_line reading enter is_skipped is_header header_name trim trim_left
      trim_right is_space is_empty has_prefix has_suffix trim_prefix trim_suffix text_eq has
      guard_against
  peer_header ks rest = refl

  abbrev pub last_keys : List (List ℕ) → List (List ℕ)
  last_keys ks =
      add_if (not (p.peer.persistent_keepalive == 0)) (codes "Peer.PersistentKeepalive") (
        codes "Peer.Endpoint"
        ∷ codes "Peer.AllowedIPs"
        ∷ add_if (not (is_empty p.peer.preshared_key)) (codes "Peer.PresharedKey")
            (codes "Peer.PublicKey" ∷ ks))

  endpoint_known :
      IsProfile L p
      → IsAccepted L p
      → parse_endpoint L (L.join_host_port p.peer.endpoint_host (L.itoa p.peer.endpoint_port))
        ≡ some (p.peer.endpoint_host, p.peer.endpoint_port)
  unfolding IsProfile IsPartial IsAccepted IsEndpoint required_missing
  endpoint_known kept accepted =
      let required = ((validate-known L p).known tt kept.0).1 in
      let there =
        host_there (length p.addresses == 0) (length p.peer.allowed_ips == 0)
          (is_empty p.peer.endpoint_host) (p.peer.endpoint_port == 0) required in
      let endpoint = set_endpoint p.peer.endpoint_port accepted.6 kept.1.5 in
      endpoint_read L known p.peer.endpoint_host p.peer.endpoint_port there accepted.6 accepted.5
        (endpoint.1, endpoint.2)

  pub peer_steps :
      (ks : List (List ℕ))
      → IsFresh ks
      → IsAccepted L p
      → IsProfile L p
      → read_lines L true
          (reading L (interface_profile L known p) interface_name (interface_name ∷ []) ks)
          (peer_lines L p p.peer.endpoint_host)
        ≡ read_lines L true
            (reading L p peer_name (peer_name ∷ interface_name ∷ []) (last_keys ks))
            []
  unfolding IsKey is_empty has text_eq identity_of assign_field field_of all_in IsAccepted
      is_command empty_profile or_error IsProfile IsPartial peer_lines endpoint_lines IsFresh
      set_peer
  peer_steps ks fresh accepted kept =
      let keys = keys_known L p accepted.0 in
      peer_header ks _
      ∙ field_step L (with_peer (empty_peer L)) (with_peer first_peer) peer_name _ ks
          (codes "PublicKey") p.peer.public_key _ (refl, refl) (valid_key-IsClean L known _ keys.1)
          refl fresh.0 refl
      ∙ optional_step L (not (is_empty p.peer.preshared_key)) (with_peer first_peer)
          (with_peer second_peer) peer_name _ _ (codes "PresharedKey") p.peer.preshared_key _
          (refl, refl) refl fresh.1
          (λ e. (valid_key-IsClean L known _ (preshared _ _ keys.2 e), refl))
          (λ e.
            ap (λ t. with_peer (record first_peer { preshared_key = t }))
              (nothing_there p.peer.preshared_key e))
      ∙ field_step L (with_peer second_peer) (with_peer third_peer) peer_name _ _
          (codes "AllowedIPs") (codes "0.0.0.0/0") _ (refl, refl) route-IsClean refl
          (has-add_if (codes "Peer.AllowedIPs") _ (not (is_empty p.peer.preshared_key)) _ refl
            fresh.2)
          (rw (route_read L known p.peer.allowed_ips accepted.4 kept.1.4) refl)
      ∙ field_step L (with_peer third_peer) (with_peer fourth_peer) peer_name _ _ (codes "Endpoint")
          (L.join_host_port p.peer.endpoint_host (L.itoa p.peer.endpoint_port)) _ (refl, refl)
          (IsPlain-IsClean _
            (known.host_read p.peer.endpoint_host p.peer.endpoint_port accepted.5).1)
          refl
          (has-add_if (codes "Peer.Endpoint") _ (not (is_empty p.peer.preshared_key)) _ refl
            fresh.3)
          (rw (endpoint_known kept accepted) refl)
      ∙ optional_step L (not (p.peer.persistent_keepalive == 0)) (with_peer fourth_peer) p peer_name
          _ _ (codes "PersistentKeepalive") (L.itoa p.peer.persistent_keepalive) [] (refl, refl)
          refl
          (has-add_if (codes "Peer.PersistentKeepalive") _ (not (is_empty p.peer.preshared_key)) _
            refl fresh.4)
          (λ e. (
            IsPlain-IsClean _ (known.number_read p.peer.persistent_keepalive accepted.9).1,
            rw
                (range_read L known 0 65535 p.peer.persistent_keepalive (omega arith) accepted.9
                  (omega arith))
                refl,
          ))
          (λ e.
            ap (λ n. with_peer (record fourth_peer { persistent_keepalive = n }))
              (none_set p.peer.persistent_keepalive e))
