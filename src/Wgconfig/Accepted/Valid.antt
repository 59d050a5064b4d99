-- ===== src/Wgconfig/Accepted/Valid.antt =====
-- What `validate` of internal/wgconfig/profile.go asks for, and what is known of a profile that was
-- parsed.
use nft_firewall_v.Prelude.{
  ℕ, ◌≤◌, ◌<◌, Bool, true, false, not, ◌||◌, ◌≡◌, ◌⊎◌, inl, inr, refl, List, [], ◌∷◌, ok, String,
  WhenOk, err_holds, if_holds, refusal_holds, All, arith, ◌==◌, ==_iff, length, guard_against,
  not-eq-false, refuse_if-eq-ok, All-mono, WhenOk-mono,
}
use nft_firewall_v.Wgconfig.Text.{is_empty}
use nft_firewall_v.Wgconfig.Text.Order.{increasing}
use nft_firewall_v.Wgconfig.{
  Library, Profile, usable4, valid_endpoint_host, validate, keys_valid, required_missing,
  usable_prefixes, default_route,
}
use nft_firewall_v.Wgconfig.Parse.{Summary, parse, summary_of}
use nft_firewall_v.Wgconfig.Print.{prefix_texts}
use nft_firewall_v.Wgconfig.Accepted.Profiles.{
  IsMtu, IsServer, IsEndpoint, IsPartial, IsProfile, parse-IsProfile,
}

zero_bits :
    (n : ℕ) {u : Unit {0}}
    → guard_against {E = String} (not (n == 0)) "VPN_PROFILE_SPLIT_TUNNEL_UNSUPPORTED" ≡ ok u
    → n ≡ 0
unfolding guard_against
zero_bits n h = (==_iff n 0).0 (not-eq-false (n == 0) (refuse_if-eq-ok _ _ h))

both_set : (m n k : ℕ) (c : Bool) → (m == 0 || n == 0 || c || k == 0) ≡ false → (0 < m) × (0 < k)
both_set m n k c h = (ground (arith, h), ground (arith, h))

pub set_endpoint : {A : Type 0} (n : ℕ) → 0 < n → ((n ≡ 0) ⊎ A) → A
set_endpoint n h (inl e) = absurd (omega (arith, h, e))
set_endpoint n h (inr a) = a

module _ (L : Library) where
  -- The one route of a profile, all of IPv4.
  unfoldable pub IsDefaultRoute : List L.Prefix → Type 0
  IsDefaultRoute qs = (q : L.Prefix) × (qs ≡ (q ∷ [])) × (L.is4 (L.addr q) ≡ true) × (L.bits q ≡ 0)

  default_route-known : (qs : List L.Prefix) → WhenOk (λ _. IsDefaultRoute qs) (default_route L qs)
  unfolding default_route IsDefaultRoute guard_against
  default_route-known [] = err_holds
  default_route-known (q ∷ r ∷ qs) = err_holds
  default_route-known (q ∷ []) =
      if_holds (not (L.is4 (L.addr q))) (λ e. err_holds)
        (λ e. record {
          known = λ u h. (q, refl, not-eq-false (L.is4 (L.addr q)) e, zero_bits (L.bits q) h);
        })

  pub validate-known :
      (p : Profile L)
      → WhenOk
          (λ _.
            (keys_valid L p ≡ true)
            × (required_missing L p ≡ false)
            × (usable_prefixes L p.addresses ≡ true)
            × IsDefaultRoute p.peer.allowed_ips)
          (validate L p)
  unfolding validate
  validate-known p = refusal_holds _ _ (λ keys. refusal_holds _ _ (λ required.
      refusal_holds _ _ (λ usable.
        WhenOk-mono (λ u route. (not-eq-false _ keys, required, not-eq-false _ usable, route))
          (default_route-known p.peer.allowed_ips))))

  -- What is known of a profile that was parsed.
  unfoldable pub IsAccepted : Profile L → Type 0
  IsAccepted p =
      (keys_valid L p ≡ true)
      × (0 < length p.addresses)
      × (usable_prefixes L p.addresses ≡ true)
      × (increasing (prefix_texts L p.addresses) ≡ true)
      × IsDefaultRoute p.peer.allowed_ips
      × (valid_endpoint_host L p.peer.endpoint_host ≡ true)
      × (0 < p.peer.endpoint_port)
      × All (λ a. usable4 L a ≡ true) p.dns
      × IsMtu p.mtu
      × (p.peer.persistent_keepalive ≤ 65535)

  pub IsProfile-IsAccepted : (p : Profile L) → IsProfile L p → IsAccepted p
  unfolding IsProfile IsPartial IsAccepted IsEndpoint required_missing IsServer
  IsProfile-IsAccepted p (valid, (texts, read, servers, mtu, routes, endpoint, keepalive)) =
      let (keys, required, usable, route) = (validate-known p).known tt valid in
      let (some_address, port) =
        both_set (length p.addresses) (length p.peer.allowed_ips) p.peer.endpoint_port
          (is_empty p.peer.endpoint_host) required in
      let host = (set_endpoint p.peer.endpoint_port port endpoint).0 in
      (
        keys,
        some_address,
        usable,
        texts,
        route,
        host,
        port,
        All-mono (λ a h. h.0) p.dns servers,
        mtu,
        keepalive,
      )

  -- A profile that `Parse` or `ParseManaged` returns has keys of 32 bytes in their canonical base64,
  -- at least one address, each a usable IPv4 prefix that is not the whole of it, sorted by their
  -- texts without a repetition, all of IPv4 as its only route, a valid host and a port that is not 0,
  -- usable IPv4 addresses as servers, an MTU that is 0 or from 576 to 9000, a keepalive of at most
  -- 65535; and the summary is the one of this profile.
  pub parse-IsAccepted :
      (managed : Bool) (text : List ℕ) (result : Profile L × Summary)
      → parse L managed text ≡ ok result
      → IsAccepted (result.0) × (result.1 ≡ summary_of L (result.0))
  parse-IsAccepted managed text (p, s) h =
      let known = parse-IsProfile L managed text (p, s) h in
      (IsProfile-IsAccepted p known.0, known.1)
