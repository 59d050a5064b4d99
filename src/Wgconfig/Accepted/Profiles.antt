-- ===== src/Wgconfig/Accepted/Profiles.antt =====
-- What the fields of an accepted profile are.
use nft_firewall_v.Prelude.{
  ℕ, ◌≤◌, Bool, true, false, not, ◌&&◌, ◌||◌, ◌≡◌, ◌⊎◌, inl, inr, refl, sym, subst, List, [], ◌∷◌,
  Option, none, some, ok, Outcome, String, WhenOk, WhenOk-mono, ok_holds, err_holds, if_holds,
  refusal_holds, step_holds, codes, All, All-append, arith, ltb, ◌==◌, some_reached, then_reached,
  else_reached, some-injective, ◌>>=◌,
}
use nft_firewall_v.Wgconfig.Text.{is_empty, text_eq}
use nft_firewall_v.Wgconfig.Text.Order.{increasing}
use nft_firewall_v.Wgconfig.{
  Library, Number, plus, minus, Profile, usable4, valid_endpoint_host, validate,
}
use nft_firewall_v.Wgconfig.Fields.{
  Field, private_key, address, dns, mtu, public_key, preshared_key, allowed_ips, endpoint,
  persistent_keepalive, table, command, unsupported, assign, assign_field, field_of, in_range,
  or_error, parse_prefixes, parse_servers, read_servers, split_list, parse_endpoint, check_endpoint,
  set_peer,
}
use nft_firewall_v.Wgconfig.Parse.{
  Reading, Summary, start, empty_profile, empty_peer, finish_profile, parse, summary_of, read_line,
}
use nft_firewall_v.Wgconfig.Print.{prefix_texts}
use nft_firewall_v.Wgconfig.Prefixes.{IsRead, parse_prefixes-IsRead}
use nft_firewall_v.Wgconfig.Accepted.{IsPlain, IsField, line_reached, parse_reached}

unfoldable pub IsMtu : ℕ → Type 0
IsMtu n = (n ≡ 0) ⊎ ((576 ≤ n) × (n ≤ 9000))

in_range-bounds :
    (low high : ℕ) (number : Option Number) {n : ℕ}
    → in_range low high number ≡ some n
    → (low ≤ n) × (n ≤ high)
unfolding in_range
in_range-bounds low high none h = cc
in_range-bounds low high (some (minus m)) h = cc
in_range-bounds low high (some (plus m)) {n} h =
    let (within, e) = else_reached (ltb m low || ltb high m) (some m) h in
    let bounds : (low ≤ m) × (m ≤ high) = (ground (arith, within), ground (arith, within)) in
    subst (λ k. (low ≤ k) × (k ≤ high)) (some-injective e) bounds

or_error_holds {ℓ κ μ} :
    {A : Type ℓ} {W : Type κ} {P : W → Type μ} (code : String) (o : Option A)
    {rest : A → Outcome String W}
    → ((a : A) → o ≡ some a → WhenOk P (rest a))
    → WhenOk P (or_error code o >>= rest)
unfolding or_error
or_error_holds code none h = err_holds
or_error_holds code (some a) h = h a refl

module _ (L : Library) where
  -- A server that the library reads, at a usable IPv4 address.
  unfoldable pub IsServer : L.Addr → Type 0
  IsServer a = (usable4 L a ≡ true) × (t : List ℕ) × (L.parse_addr t ≡ some a)

  unfoldable pub IsEndpoint : List ℕ → ℕ → Type 0
  IsEndpoint host port =
      (valid_endpoint_host L host ≡ true) × (t : List ℕ) × (L.parse_uint16 t ≡ some port)

  -- What the fields hold at any time: what they held at the start, or what was read.
  unfoldable pub IsPartial : Profile L → Type 0
  unfolding IsMtu IsServer IsEndpoint
  IsPartial p =
      (increasing (prefix_texts L p.addresses) ≡ true)
      × All (IsRead L false) p.addresses
      × All IsServer p.dns
      × IsMtu p.mtu
      × All (IsRead L true) p.peer.allowed_ips
      × ((p.peer.endpoint_port ≡ 0) ⊎ IsEndpoint p.peer.endpoint_host p.peer.endpoint_port)
      × (p.peer.persistent_keepalive ≤ 65535)

  unfoldable pub IsProfile : Profile L → Type 0
  unfolding IsPartial
  IsProfile p = (validate L p ≡ ok tt) × IsPartial p

  IsServer-all :
      (raws : List (List ℕ)) {found : List L.Addr}
      → read_servers L raws ≡ some found
      → All IsServer found
  unfolding read_servers IsServer
  IsServer-all [] {found} h = subst (All IsServer) (some-injective h) tt
  IsServer-all (raw ∷ raws) h =
      let (a, e, k) = some_reached (L.parse_addr raw) _ h in
      let (usable, m) = then_reached (usable4 L a) _ k in
      let (rest, n, o) = some_reached (read_servers L raws) _ m in
      subst (All IsServer) (some-injective o) ((usable, raw, e), IsServer-all raws n)

  servers_read :
      (value : List ℕ) {found : List L.Addr}
      → parse_servers L value ≡ some found
      → All IsServer found
  unfolding parse_servers
  servers_read value h =
      let (raws, e, k) = some_reached (split_list value) _ h in IsServer-all raws k

  checked-IsEndpoint :
      (host : List ℕ) (port : Option ℕ) {e : List ℕ × ℕ}
      → (t : List ℕ) × (L.parse_uint16 t ≡ port)
      → check_endpoint L host port ≡ some e
      → IsEndpoint (e.0) (e.1)
  unfolding check_endpoint IsEndpoint
  checked-IsEndpoint host none read h = cc
  checked-IsEndpoint host (some port) (t, read) h =
      let (fine, m) = else_reached (port == 0 || not (valid_endpoint_host L host)) _ h in
      let valid : valid_endpoint_host L host ≡ true = ground (arith, fine) in
      subst (λ x. IsEndpoint (x.0) (x.1)) (some-injective m) (valid, t, read)

  IsEndpoint-read :
      (value : List ℕ) {e : List ℕ × ℕ} → parse_endpoint L value ≡ some e → IsEndpoint (e.0) (e.1)
  unfolding parse_endpoint check_endpoint IsEndpoint
  IsEndpoint-read value h =
      let (parts, e, k) = some_reached (L.split_host_port value) _ h in
      let (there, m) = else_reached (is_empty (parts.0)) _ k in
      checked-IsEndpoint (parts.0) (L.parse_uint16 (parts.1)) (parts.1, refl) m

  assign_field-IsPartial :
      (managed : Bool) (p : Profile L) (f : Field) (value : List ℕ)
      → IsPartial p
      → WhenOk IsPartial (assign_field L managed p f value)
  unfolding assign_field IsPartial set_peer
  assign_field-IsPartial managed p private_key value h = ok_holds h
  assign_field-IsPartial managed p address value h =
      or_error_holds _ (parse_prefixes L value false) (λ ps e.
        let k = parse_prefixes-IsRead L value false e in
        ok_holds (k.0, k.1, h.2, h.3, h.4, h.5, h.6))
  assign_field-IsPartial managed p dns value h =
      or_error_holds _ (parse_servers L value) (λ found e.
        ok_holds (
          h.0,
          h.1,
          All-append IsServer p.dns found h.2 (servers_read value e),
          h.3,
          h.4,
          h.5,
          h.6,
        ))
  assign_field-IsPartial managed p mtu value h =
      or_error_holds _ (in_range 576 9000 (L.atoi value)) (λ n e.
        ok_holds (h.0, h.1, h.2, inr (in_range-bounds 576 9000 (L.atoi value) e), h.4, h.5, h.6))
  assign_field-IsPartial managed p public_key value h = ok_holds h
  assign_field-IsPartial managed p preshared_key value h = ok_holds h
  assign_field-IsPartial managed p allowed_ips value h =
      or_error_holds _ (parse_prefixes L value true) (λ ps e.
        let k = parse_prefixes-IsRead L value true e in
        ok_holds (h.0, h.1, h.2, h.3, k.1, h.5, h.6))
  assign_field-IsPartial managed p endpoint value h =
      or_error_holds _ (parse_endpoint L value)
        (λ x e. ok_holds (h.0, h.1, h.2, h.3, h.4, inr (IsEndpoint-read value e), h.6))
  assign_field-IsPartial managed p persistent_keepalive value h =
      or_error_holds _ (in_range 0 65535 (L.atoi value)) (λ n e.
        ok_holds (h.0, h.1, h.2, h.3, h.4, h.5, (in_range-bounds 0 65535 (L.atoi value) e).1))
  assign_field-IsPartial managed p table value h =
      if_holds (managed && text_eq value (codes "off")) (λ e. ok_holds h) (λ e. err_holds)
  assign_field-IsPartial managed p command value h = err_holds
  assign_field-IsPartial managed p unsupported value h = err_holds

  assign-IsPartial :
      (managed : Bool) (p : Profile L) (identity value : List ℕ)
      → IsPartial p
      → WhenOk IsPartial (assign L managed p identity value)
  unfolding assign
  assign-IsPartial managed p identity value h =
      if_holds (is_empty value) (λ e. err_holds)
        (λ e. assign_field-IsPartial managed p (field_of identity) value h)

  Partly : Reading L → Type 0
  Partly r = IsPartial r.profile

  line-Partly :
      (managed : Bool) (r : Reading L) (line : List ℕ)
      → Partly r
      → WhenOk (λ next. Partly next × Unit {0}) (read_line L managed r line)
  unfolding Partly IsPlain IsField
  line-Partly managed r line h =
      WhenOk-mono
        (λ next k. elim k [
          | inl (skipped, same, named) ↦ (subst IsPartial (sym same) h, tt)
          | inr (key, value, there, e, assigned, same) ↦
              ((assign-IsPartial managed r.profile _ _ h).known next.profile assigned, tt)
        ])
        (line_reached L managed r line)

  finish_accepts :
      (r : Reading L)
      → Partly r
      → WhenOk
          (λ result. IsProfile (result.0) × (result.1 ≡ summary_of L (result.0)))
          (finish_profile L r)
  unfolding Partly finish_profile IsProfile
  finish_accepts r h =
      refusal_holds _ _ (λ seen. step_holds (validate L r.profile) (λ u e. ok_holds ((e, h), refl)))

  start-IsPartial : IsPartial (start L).profile
  unfolding IsPartial start empty_profile empty_peer IsMtu increasing prefix_texts
  start-IsPartial = (refl, tt, tt, inl refl, tt, inl refl, omega arith)

  -- Whatever text is accepted.
  pub parse-IsProfile :
      (managed : Bool) (text : List ℕ) (result : Profile L × Summary)
      → parse L managed text ≡ ok result
      → IsProfile (result.0) × (result.1 ≡ summary_of L (result.0))
  unfolding Partly
  parse-IsProfile managed text result h =
      ((parse_reached L {P = Partly} {Q = λ _. Unit {0}} managed (line-Partly managed)
          start-IsPartial finish_accepts text).known
        result h).0
