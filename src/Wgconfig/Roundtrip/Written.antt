-- ===== src/Wgconfig/Roundtrip/Written.antt =====
-- The sections that `NormalizedWGQuick` of internal/wgconfig/profile.go writes, read line by line.
use nft_firewall_v.Prelude.{
  ℕ, ◌≤◌, ◌<◌, true, false, not, ◌||◌, ◌≡◌, ◌∙◌, inl, inr, refl, sym, ap, List, [], ◌∷◌, ◌==◌,
  ==_iff, ltb, arith, codes, length, guard_against, not-eq-false, all_in,
}
use nft_firewall_v.Wgconfig.Text.{
  is_empty, text_eq, has, trim, trim_left, trim_right, join, has_prefix, has_suffix, is_space,
  trim_prefix, trim_suffix,
}
use nft_firewall_v.Wgconfig.Text.Laws.{lacks}
use nft_firewall_v.Wgconfig.Text.Plain.{IsClean, IsPlain-IsClean}
use nft_firewall_v.Wgconfig.{Library, Profile, keys_valid, valid_key}
use nft_firewall_v.Wgconfig.Fields.{assign_field, field_of, is_command, or_error}
use nft_firewall_v.Wgconfig.Parse.{
  Reading, identity_of, read_lines, read_line, enter, start, empty_profile, is_skipped, is_header,
  header_name,
}
use nft_firewall_v.Wgconfig.Print.{field_line, optional, prefix_texts, address_texts}
use nft_firewall_v.Wgconfig.Roundtrip.Lines.{IsKey}
use nft_firewall_v.Wgconfig.Roundtrip.Values.{
  IsLibrary, valid_key-IsClean, addresses_read, servers_read, range_read,
}
use nft_firewall_v.Wgconfig.Accepted.Profiles.{IsProfile, IsPartial, IsMtu}
use nft_firewall_v.Wgconfig.Accepted.Valid.{IsAccepted}
use nft_firewall_v.Wgconfig.Roundtrip.{reading, field_step, optional_step, add_if, has-add_if}

abbrev pub interface_name : List ℕ
interface_name = codes "Interface"

abbrev pub peer_name : List ℕ
peer_name = codes "Peer"

pub none_set : (n : ℕ) → not (n == 0) ≡ false → 0 ≡ n
none_set n h = sym ((==_iff n 0).0 (not-eq-false (n == 0) h))

pub some_set : (n : ℕ) → not (n == 0) ≡ true → 0 < n
some_set n h = ground (arith, h)

not_positive : (n : ℕ) → ltb 0 n ≡ false → n ≡ 0
not_positive n h = ground (arith, h)

no_items : {A : Type 0} (xs : List A) → ltb 0 (length xs) ≡ false → [] ≡ xs
no_items [] h = refl
no_items (x ∷ xs) h = absurd (omega (arith, not_positive (length (x ∷ xs)) h))

pub some_items : {A : Type 0} (xs : List A) → ltb 0 (length xs) ≡ true → 0 < length xs
some_items xs h = ground (arith, h)

mtu_range : (n : ℕ) → 0 < n → IsMtu n → (576 ≤ n) × (n ≤ 9000)
unfolding IsMtu
mtu_range n h (inl e) = absurd (omega (arith, h, e))
mtu_range n h (inr m) = m

module _ (L : Library) where
  interface_header :
      (rest : List (List ℕ))
      → read_lines L true (start L) (codes "[Interface]" ∷ rest)
        ≡ read_lines L true
            (reading L (empty_profile L) interface_name (interface_name ∷ []) [])
            rest
  unfolding read_lines read_line reading start enter is_skipped is_header header_name trim trim_left
      trim_right is_space is_empty has_prefix has_suffix trim_prefix trim_suffix text_eq has
      guard_against
  interface_header rest = refl

  pub blank_step :
      (r : Reading L) (rest : List (List ℕ))
      → read_lines L true r ([] ∷ rest) ≡ read_lines L true r rest
  unfolding read_lines read_line is_skipped trim trim_left trim_right is_empty
  blank_step r rest = refl

  pub keys_known :
      (p : Profile L)
      → keys_valid L p ≡ true
      → (valid_key L p.private_key ≡ true)
        × (valid_key L p.peer.public_key ≡ true)
        × ((is_empty p.peer.preshared_key || valid_key L p.peer.preshared_key) ≡ true)
  unfolding keys_valid
  keys_known p h = (ground (arith, h), ground (arith, h), ground (arith, h))

off-IsClean : IsClean (codes "off")
unfolding IsClean trim_left trim_right is_space is_empty lacks
off-IsClean = (refl, refl, refl, refl, refl, refl)

module _ (L : Library) (known : IsLibrary L) (p : Profile L) where
  abbrev first_profile : Profile L
  first_profile = record (empty_profile L) { private_key = p.private_key }

  abbrev pub second_profile : Profile L
  second_profile = record first_profile { addresses = p.addresses }

  abbrev third_profile : Profile L
  third_profile = record second_profile { dns = p.dns }

  -- The profile after "[Interface]".
  abbrev pub interface_profile : Profile L
  interface_profile = record third_profile { mtu = p.mtu }

  abbrev pub first_keys : List (List ℕ)
  first_keys = codes "Interface.Address" ∷ codes "Interface.PrivateKey" ∷ []

  abbrev server_keys : List (List ℕ)
  server_keys = add_if (ltb 0 (length p.dns)) (codes "Interface.DNS") first_keys

  abbrev pub interface_keys : List (List ℕ)
  interface_keys =
      codes "Interface.Table" ∷ add_if (not (p.mtu == 0)) (codes "Interface.MTU") server_keys

  pub required_steps :
      (rest : List (List ℕ))
      → IsAccepted L p
      → IsProfile L p
      → read_lines L true (start L) (
          codes "[Interface]"
          ∷ field_line (codes "PrivateKey") p.private_key
          ∷ field_line (codes "Address") (join (prefix_texts L p.addresses))
          ∷ rest)
        ≡ read_lines L true
            (reading L second_profile interface_name (interface_name ∷ []) first_keys)
            rest
  unfolding IsKey is_empty has text_eq identity_of assign_field field_of all_in IsAccepted
      keys_valid empty_profile or_error IsProfile IsPartial
  required_steps rest accepted kept =
      let addresses =
        addresses_read L known p.addresses accepted.1 accepted.2 accepted.3 kept.1.1 in
      interface_header L _
      ∙ field_step L (empty_profile L) first_profile interface_name (interface_name ∷ []) []
          (codes "PrivateKey") p.private_key _ (refl, refl)
          (valid_key-IsClean L known _ (keys_known L p accepted.0).0) refl refl refl
      ∙ field_step L first_profile second_profile interface_name (interface_name ∷ []) _
          (codes "Address") (join (prefix_texts L p.addresses)) rest (refl, refl) addresses.0 refl
          refl (rw addresses.1 refl)

  pub optional_steps :
      (rest : List (List ℕ))
      → IsAccepted L p
      → IsProfile L p
      → read_lines L true
          (reading L second_profile interface_name (interface_name ∷ []) first_keys)
          (optional
            (ltb 0 (length p.dns))
            (field_line (codes "DNS") (join (address_texts L p.dns)))
            (optional
              (not (p.mtu == 0))
              (field_line (codes "MTU") (L.itoa p.mtu))
              (field_line (codes "Table") (codes "off") ∷ [] ∷ rest)))
        ≡ read_lines L true
            (reading L interface_profile interface_name (interface_name ∷ []) interface_keys)
            rest
  unfolding IsKey is_empty has text_eq identity_of assign_field field_of all_in IsAccepted
      is_command empty_profile or_error IsProfile IsPartial
  optional_steps rest accepted kept =
      optional_step L (ltb 0 (length p.dns)) second_profile third_profile interface_name
        (interface_name ∷ []) first_keys (codes "DNS") (join (address_texts L p.dns)) _ (refl, refl)
        refl refl
        (λ e.
          let servers = servers_read L known p.dns (some_items p.dns e) kept.1.2 in
          (servers.0, rw servers.1 refl))
        (λ e. ap (λ x. record second_profile { dns = x }) (no_items p.dns e))
      ∙ optional_step L (not (p.mtu == 0)) third_profile interface_profile interface_name
          (interface_name ∷ []) server_keys (codes "MTU") (L.itoa p.mtu) _ (refl, refl) refl
          (has-add_if (codes "Interface.MTU") _ (ltb 0 (length p.dns)) _ refl refl)
          (λ e.
            let range = mtu_range p.mtu (some_set p.mtu e) accepted.8 in
            (
              IsPlain-IsClean _ (known.number_read p.mtu (omega (arith, range.1))).1,
              rw (range_read L known 576 9000 p.mtu range.0 range.1 (omega arith)) refl,
            ))
          (λ e. ap (λ x. record third_profile { mtu = x }) (none_set p.mtu e))
      ∙ field_step L interface_profile interface_profile interface_name (interface_name ∷ []) _
          (codes "Table") (codes "off") _ (refl, refl) off-IsClean refl
          (has-add_if (codes "Interface.Table") _ (not (p.mtu == 0)) _ refl
            (has-add_if (codes "Interface.Table") _ (ltb 0 (length p.dns)) _ refl refl))
          refl
      ∙ blank_step L _ rest
