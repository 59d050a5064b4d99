-- ===== src/Wgconfig/Roundtrip/Values.antt =====
-- How the values that internal/wgconfig/profile.go writes are read back.
use nft_firewall_v.Prelude.{
  ℕ, ◌≤◌, ◌<◌, true, false, not, ◌&&◌, ◌≡◌, ◌∙◌, refl, sym, ap, subst, List, [], ◌∷◌, Option, none,
  some, ◌==◌, arith, All, &&-eq-true, codes, length, ==_iff,
}
use nft_firewall_v.Wgconfig.Text.{
  is_empty, is_space, text_eq, has, trim, trim_left, trim_right, split, push, join,
}
use nft_firewall_v.Wgconfig.Text.Order.{
  text_eq_sound, increasing, distinct, increasing-distinct, all_below,
}
use nft_firewall_v.Wgconfig.Text.Plain.{IsPlain, IsClean, IsPlain-IsClean, IsClean-join, split-join}
use nft_firewall_v.Wgconfig.{
  Library, plus, usable4, valid_endpoint_host, valid_key, usable_prefixes,
}
use nft_firewall_v.Wgconfig.Fields.{
  split_list, trim_items, read_prefixes, parse_prefixes, sort_prefixes, insert_prefix, read_servers,
  parse_servers, in_range, check_endpoint, parse_endpoint,
}
use nft_firewall_v.Wgconfig.Print.{prefix_texts, address_texts}
use nft_firewall_v.Wgconfig.Prefixes.{IsRead, sort_sorted}
use nft_firewall_v.Wgconfig.Accepted.Profiles.{IsServer}
use nft_firewall_v.Wgconfig.Accepted.Valid.{IsDefaultRoute}

-- What is known of the packages: what they print of a value that they have read, or of a number up
-- to 65535, they read as the same value, and it has no space or comma; of all IPv4 prefixes of no
-- bits, one is masked.
pub record IsLibrary (L : Library) : Type 0 where
  pub prefix_read :
      (t : List ℕ) (p : L.Prefix)
      → L.parse_prefix t ≡ some p
      → L.is4 (L.addr p) ≡ true
      → (L.parse_prefix (L.prefix_text p) ≡ some p) × IsPlain (L.prefix_text p)
  pub default_read :
      (t : List ℕ) (p : L.Prefix)
      → L.parse_prefix t ≡ some p
      → L.is4 (L.addr (L.masked p)) ≡ true
      → L.bits (L.masked p) ≡ 0
      → L.parse_prefix (codes "0.0.0.0/0") ≡ some (L.masked p)
  pub masked_twice : (p : L.Prefix) → L.masked (L.masked p) ≡ L.masked p
  pub addr_read :
      (t : List ℕ) (a : L.Addr)
      → L.parse_addr t ≡ some a
      → L.is4 a ≡ true
      → (L.parse_addr (L.addr_text a) ≡ some a) × IsPlain (L.addr_text a)
  pub number_read : (n : ℕ) → n ≤ 65535 → (L.atoi (L.itoa n) ≡ some (plus n)) × IsPlain (L.itoa n)
  pub port_read :
      (t : List ℕ) (n : ℕ) → L.parse_uint16 t ≡ some n → L.parse_uint16 (L.itoa n) ≡ some n
  pub host_read :
      (host : List ℕ) (n : ℕ)
      → valid_endpoint_host L host ≡ true
      → (L.split_host_port (L.join_host_port host (L.itoa n)) ≡ some (host, L.itoa n))
        × IsPlain (L.join_host_port host (L.itoa n))
  pub key_plain : (bytes : List ℕ) → length bytes ≡ 32 → IsPlain (L.encode_key bytes)

module _ (L : Library) (known : IsLibrary L) where
  key_bytes :
      (value : List ℕ) (decoded : Option (List ℕ))
      → elim decoded [
        | none ↦ false
        | some bytes ↦ length bytes == 32 && text_eq (L.encode_key bytes) value
      ]
        ≡ true
      → IsClean value
  key_bytes value none h = absurd (cc)
  key_bytes value (some bytes) h =
      let parts = &&-eq-true (length bytes == 32) _ h in
      subst IsClean (text_eq_sound (L.encode_key bytes) value parts.1)
        (IsPlain-IsClean _ (known.key_plain bytes ((==_iff (length bytes) 32).0 parts.0)))

  pub valid_key-IsClean : (value : List ℕ) → valid_key L value ≡ true → IsClean value
  unfolding valid_key
  valid_key-IsClean value h = key_bytes value (L.decode_key value) h

  usable_first :
      (p : L.Prefix) (ps : List L.Prefix)
      → usable_prefixes L (p ∷ ps) ≡ true
      → (L.is4 (L.addr p) ≡ true) × (usable_prefixes L ps ≡ true)
  unfolding usable_prefixes
  usable_first p ps h = (ground (arith, h), ground (arith, h))

  IsPlain-prefixes :
      (ps : List L.Prefix)
      → usable_prefixes L ps ≡ true
      → All (IsRead L false) ps
      → All IsPlain (prefix_texts L ps)
  unfolding prefix_texts IsRead
  IsPlain-prefixes [] u r = tt
  IsPlain-prefixes (p ∷ ps) u ((t, e), r) =
      let parts = usable_first p ps u in
      ((known.prefix_read t p e parts.0).1, IsPlain-prefixes ps parts.1 r)

  reread :
      (seen : List (List ℕ)) (ps : List L.Prefix)
      → usable_prefixes L ps ≡ true
      → All (IsRead L false) ps
      → distinct seen (prefix_texts L ps) ≡ true
      → read_prefixes L false seen (prefix_texts L ps) ≡ some ps
  unfolding prefix_texts IsRead read_prefixes distinct
  reread seen [] u r d = refl
  reread seen (p ∷ ps) u ((t, e), r) d =
      let parts = usable_first p ps u in
      let new = &&-eq-true (not (has (L.prefix_text p) seen)) _ d in
      let fresh : has (L.prefix_text p) seen ≡ false = ground (arith, new.0) in
      rw
        (
          (known.prefix_read t p e parts.0).0,
          fresh,
          reread (L.prefix_text p ∷ seen) ps parts.1 r new.1,
        )
        refl

  -- The addresses are read back in their order.
  pub addresses_read :
      (ps : List L.Prefix)
      → 0 < length ps
      → usable_prefixes L ps ≡ true
      → increasing (prefix_texts L ps) ≡ true
      → All (IsRead L false) ps
      → IsClean (join (prefix_texts L ps))
        × (parse_prefixes L (join (prefix_texts L ps)) false ≡ some ps)
  unfolding parse_prefixes split_list prefix_texts all_below join
  addresses_read [] h u s r = absurd (omega (arith, h))
  addresses_read (p ∷ ps) h u s r =
      let plain = IsPlain-prefixes (p ∷ ps) u r in
      (
        IsClean-join (L.prefix_text p) (prefix_texts L ps) plain.0 plain.1,
        rw
            (
              (split-join (L.prefix_text p) (prefix_texts L ps) plain.0 plain.1).0,
              reread [] (p ∷ ps) u r (increasing-distinct [] _ refl s),
            )
            (ap some (sort_sorted L (p ∷ ps) s)),
      )

  usable_is4 : (a : L.Addr) → usable4 L a ≡ true → L.is4 a ≡ true
  unfolding usable4
  usable_is4 a h = (&&-eq-true (L.is4 a) _ h).0

  IsPlain-servers :
      (servers : List L.Addr) → All (IsServer L) servers → All IsPlain (address_texts L servers)
  unfolding address_texts IsServer
  IsPlain-servers [] h = tt
  IsPlain-servers (a ∷ rest) ((usable, t, e), h) =
      ((known.addr_read t a e (usable_is4 a usable)).1, IsPlain-servers rest h)

  servers_reread :
      (servers : List L.Addr)
      → All (IsServer L) servers
      → read_servers L (address_texts L servers) ≡ some servers
  unfolding address_texts IsServer read_servers
  servers_reread [] h = refl
  servers_reread (a ∷ rest) ((usable, t, e), h) =
      rw ((known.addr_read t a e (usable_is4 a usable)).0, usable, servers_reread rest h) refl

  pub servers_read :
      (servers : List L.Addr)
      → 0 < length servers
      → All (IsServer L) servers
      → IsClean (join (address_texts L servers))
        × (parse_servers L (join (address_texts L servers)) ≡ some servers)
  unfolding parse_servers split_list address_texts join
  servers_read [] h all = absurd (omega (arith, h))
  servers_read (a ∷ rest) h all =
      let plain = IsPlain-servers (a ∷ rest) all in
      (
        IsClean-join (L.addr_text a) (address_texts L rest) plain.0 plain.1,
        rw (split-join (L.addr_text a) (address_texts L rest) plain.0 plain.1).0
            (servers_reread (a ∷ rest) all),
      )

  route_masked :
      (q : L.Prefix)
      → L.is4 (L.addr q) ≡ true
      → L.bits q ≡ 0
      → IsRead L true q
      → parse_prefixes L (codes "0.0.0.0/0") true ≡ some (q ∷ [])
  unfolding parse_prefixes split_list trim_items split push trim trim_left trim_right is_space
      is_empty read_prefixes sort_prefixes insert_prefix has IsRead
  route_masked q is4 bits (p, e, (t, read)) =
      let same =
        known.default_read t p read (subst (λ x. L.is4 (L.addr x) ≡ true) (sym e) is4)
          (subst (λ x. L.bits x ≡ 0) (sym e) bits) in
      rw (parse_prefixes, same) (λ i. some ((known.masked_twice p ∙ e) i ∷ []))

  -- The route is read back.
  pub route_read :
      (routes : List L.Prefix)
      → IsDefaultRoute L routes
      → All (IsRead L true) routes
      → parse_prefixes L (codes "0.0.0.0/0") true ≡ some routes
  unfolding IsDefaultRoute
  route_read routes (q, e, is4, bits) h =
      subst (λ qs. parse_prefixes L (codes "0.0.0.0/0") true ≡ some qs) (sym e)
        (route_masked q is4 bits (subst (λ qs. All (IsRead L true) qs) e h).0)

  pub range_read :
      (low high n : ℕ)
      → low ≤ n
      → n ≤ high
      → high ≤ 65535
      → in_range low high (L.atoi (L.itoa n)) ≡ some n
  unfolding in_range
  range_read low high n h k top =
      rw (known.number_read n (omega (arith, k, top))).0 (ground (arith, h, k))

  pub endpoint_read :
      (host : List ℕ) (port : ℕ)
      → is_empty host ≡ false
      → 0 < port
      → valid_endpoint_host L host ≡ true
      → (t : List ℕ) × (L.parse_uint16 t ≡ some port)
      → parse_endpoint L (L.join_host_port host (L.itoa port)) ≡ some (host, port)
  unfolding parse_endpoint check_endpoint
  endpoint_read host port there h valid (t, e) =
      rw
        (
          parse_endpoint,
          (known.host_read host port valid).0,
          there,
          known.port_read t port e,
          valid,
        )
        (ground (arith, h))
