-- ===== src/Wgconfig/Accepted/Commands.antt =====
-- No line of an accepted profile is a hook of wg-quick, has it save the profile or names a table.
use nft_firewall_v.Prelude.{
  ℕ, ◌+◌, ◌==◌, leb, if◌then◌else◌, ◌∷◌, Bool, true, false, not, ◌&&◌, ◌||◌, ◌≡◌, ◌⊎◌, inl, inr,
  refl, sym, subst, List, [], Option, none, some, ok, WhenOk, WhenOk-mono, always_holds, err_holds,
  if_holds, codes, All, Bool-cases, arith,
}
use nft_firewall_v.Wgconfig.Text.{
  text_eq, trim, trim_left, trim_right, is_space, cut, scan_lines, is_empty,
}
use nft_firewall_v.Wgconfig.Text.Order.{text_eq_sound}
use nft_firewall_v.Wgconfig.{Library, Profile}
use nft_firewall_v.Wgconfig.Fields.{
  Field, private_key, address, dns, mtu, public_key, preshared_key, allowed_ips, endpoint,
  persistent_keepalive, table, command, unsupported, assign, assign_field, field_of, is_command,
}
use nft_firewall_v.Wgconfig.Parse.{
  Reading, Summary, start, is_skipped, is_header, identity_of, read_line, parse,
}
use nft_firewall_v.Wgconfig.Accepted.{IsSection, IsPlain, IsField, line_reached, parse_reached}

unfoldable pub lower : ℕ → ℕ
lower c = if leb b'A' c && leb c b'Z' then c + 32 else c

unfoldable pub lower_before_hash : List ℕ → List ℕ
unfolding lower
lower_before_hash [] = []
lower_before_hash (c ∷ cs) =
    let rest = lower_before_hash cs in if c == b'#' then [] else lower c ∷ rest

-- A key as wg-quick reads it: it drops what follows a #, and does not tell the case of letters.
unfoldable pub wg_quick_key : List ℕ → List ℕ
unfolding lower_before_hash trim
wg_quick_key key = trim (lower_before_hash key)

-- Keys for which wg-quick runs a command or writes the profile.
unfoldable pub is_hook : List ℕ → Bool
unfolding text_eq
is_hook key =
    text_eq key (codes "preup")
    || text_eq key (codes "postup")
    || text_eq key (codes "predown")
    || text_eq key (codes "postdown")
    || text_eq key (codes "saveconfig")

-- A hook, or a choice of the routing table other than off for a managed profile.
unfoldable pub touches : Bool → List ℕ → List ℕ → Bool
unfolding is_hook text_eq wg_quick_key
touches managed key value =
    is_hook (wg_quick_key key)
    || (text_eq (wg_quick_key key) (codes "table") && not (managed && text_eq value (codes "off")))

unfoldable pub acts : Bool → Option (List ℕ × List ℕ) → Bool
unfolding touches trim
acts managed none = false
acts managed (some parts) = touches managed (trim (parts.0)) (trim (parts.1))

-- Whether a line is a hook of wg-quick or chooses a routing table.
unfoldable pub acts_on : Bool → List ℕ → Bool
unfolding acts is_skipped is_header cut
acts_on managed line = not (is_skipped line) && not (is_header line) && acts managed (cut b'=' line)

is_harmless : Bool → Field → List ℕ → Bool
is_harmless managed private_key value = true
is_harmless managed address value = true
is_harmless managed dns value = true
is_harmless managed mtu value = true
is_harmless managed public_key value = true
is_harmless managed preshared_key value = true
is_harmless managed allowed_ips value = true
is_harmless managed endpoint value = true
is_harmless managed persistent_keepalive value = true
is_harmless managed table value = managed && text_eq value (codes "off")
is_harmless managed command value = false
is_harmless managed unsupported value = false

name_of : Field → List ℕ
name_of private_key = codes "Interface.PrivateKey"
name_of address = codes "Interface.Address"
name_of dns = codes "Interface.DNS"
name_of mtu = codes "Interface.MTU"
name_of public_key = codes "Peer.PublicKey"
name_of preshared_key = codes "Peer.PresharedKey"
name_of allowed_ips = codes "Peer.AllowedIPs"
name_of endpoint = codes "Peer.Endpoint"
name_of persistent_keepalive = codes "Peer.PersistentKeepalive"
name_of table = codes "Interface.Table"
name_of command = []
name_of unsupported = []

key_part : List ℕ → List ℕ
key_part [] = []
key_part (c ∷ cs) = if c == b'.' then cs else key_part cs

-- A field that may be accepted has one identity.
IsNamed : List ℕ → Field → Type 0
IsNamed t f =
    (t ≡ name_of f) ⊎ ((managed : Bool) (value : List ℕ) → is_harmless managed f value ≡ false)

IsNamed-one :
    (t : List ℕ) (f other : Field)
    → IsNamed t other
    → IsNamed t (if text_eq t (name_of f) then f else other)
unfolding IsNamed
IsNamed-one t f other h = elim (Bool-cases (text_eq t (name_of f))) [
  | inl e ↦ rw e (inl (text_eq_sound t (name_of f) e))
  | inr e ↦ rw e h
]

IsNamed-refused : (t : List ℕ) (b : Bool) → IsNamed t (if b then command else unsupported)
unfolding IsNamed is_harmless
IsNamed-refused t true = inr (λ managed value. refl)
IsNamed-refused t false = inr (λ managed value. refl)

field_of-IsNamed : (t : List ℕ) → IsNamed t (field_of t)
unfolding field_of name_of
field_of-IsNamed t = IsNamed-one t private_key _ (
    IsNamed-one t address _ (
      IsNamed-one t dns _ (
        IsNamed-one t mtu _ (
          IsNamed-one t public_key _ (
            IsNamed-one t preshared_key _ (
              IsNamed-one t allowed_ips _ (
                IsNamed-one t endpoint _ (
                  IsNamed-one t persistent_keepalive _
                    (IsNamed-one t table _ (IsNamed-refused t (is_command t)))))))))))

field-touches :
    (managed : Bool) (f : Field) (value : List ℕ)
    → is_harmless managed f value ≡ true
    → touches managed (key_part (name_of f)) value ≡ false
unfolding is_harmless name_of key_part touches is_hook wg_quick_key lower_before_hash lower text_eq
    trim trim_left trim_right is_space is_empty
field-touches managed private_key value h = refl
field-touches managed address value h = refl
field-touches managed dns value h = refl
field-touches managed mtu value h = refl
field-touches managed public_key value h = refl
field-touches managed preshared_key value h = refl
field-touches managed allowed_ips value h = refl
field-touches managed endpoint value h = refl
field-touches managed persistent_keepalive value h = refl
field-touches managed table value h = rw h refl
field-touches managed command value h = cc
field-touches managed unsupported value h = cc

identity-touches :
    (managed : Bool) (t value : List ℕ)
    → is_harmless managed (field_of t) value ≡ true
    → touches managed (key_part t) value ≡ false
unfolding IsNamed
identity-touches managed t value h = elim (field_of-IsNamed t) [
  | inl e ↦
      subst (λ u. touches managed (key_part u) value ≡ false) (sym e)
        (field-touches managed (field_of t) value h)
  | inr refused ↦ let no = refused managed value in cc
]

key_part-identity_of :
    (section key : List ℕ) → IsSection section → key_part (identity_of section key) ≡ key
unfolding IsSection key_part identity_of
key_part-identity_of section key (inl e) =
    subst (λ s. key_part (identity_of s key) ≡ key) (sym e) refl
key_part-identity_of section key (inr e) =
    subst (λ s. key_part (identity_of s key) ≡ key) (sym e) refl

module _ (L : Library) where
  assign_field-harmless :
      (managed : Bool) (p : Profile L) (f : Field) (value : List ℕ)
      → WhenOk (λ _. is_harmless managed f value ≡ true) (assign_field L managed p f value)
  unfolding is_harmless assign_field
  assign_field-harmless managed p private_key value = always_holds (λ _. refl)
  assign_field-harmless managed p address value = always_holds (λ _. refl)
  assign_field-harmless managed p dns value = always_holds (λ _. refl)
  assign_field-harmless managed p mtu value = always_holds (λ _. refl)
  assign_field-harmless managed p public_key value = always_holds (λ _. refl)
  assign_field-harmless managed p preshared_key value = always_holds (λ _. refl)
  assign_field-harmless managed p allowed_ips value = always_holds (λ _. refl)
  assign_field-harmless managed p endpoint value = always_holds (λ _. refl)
  assign_field-harmless managed p persistent_keepalive value = always_holds (λ _. refl)
  assign_field-harmless managed p table value =
      if_holds (managed && text_eq value (codes "off")) (λ e. always_holds (λ _. e))
        (λ e. err_holds)
  assign_field-harmless managed p command value = err_holds
  assign_field-harmless managed p unsupported value = err_holds

  -- The section is none before the first header, and one of the two names after.
  Sectioned : Reading L → Type 0
  Sectioned r = (r.section ≡ []) ⊎ IsSection r.section

  assign-harmless :
      (managed : Bool) (p : Profile L) (identity value : List ℕ)
      → WhenOk
          (λ _. is_harmless managed (field_of identity) value ≡ true)
          (assign L managed p identity value)
  unfolding assign
  assign-harmless managed p identity value =
      if_holds (is_empty value) (λ e. err_holds)
        (λ e. assign_field-harmless managed p (field_of identity) value)

  IsSection-there : (r : Reading L) → Sectioned r → is_empty r.section ≡ false → IsSection r.section
  unfolding Sectioned is_empty
  IsSection-there r (inl e) there =
      let none_yet : true ≡ false = subst (λ t. is_empty t ≡ false) e there in cc
  IsSection-there r (inr s) there = s

  acts_not :
      (managed : Bool) (r : Reading L) (line : List ℕ) (next : Reading L)
      → Sectioned r
      → IsField L managed r line next
      → acts managed (cut b'=' line) ≡ false
  unfolding IsField acts
  acts_not managed r line next s (key, value, there, e, assigned, same) =
      let section = IsSection-there r s there in
      let harmless = (assign-harmless managed r.profile _ (trim value)).known _ assigned in
      rw e (
        subst (λ k. touches managed k (trim value) ≡ false)
          (key_part-identity_of r.section (trim key) section)
          (identity-touches managed (identity_of r.section (trim key)) (trim value) harmless))

  plain_line :
      (managed : Bool) (line : List ℕ)
      → (is_skipped line ≡ true) ⊎ (is_header line ≡ true)
      → acts_on managed line ≡ false
  unfolding acts_on
  plain_line managed line (inl e) = rw e refl
  plain_line managed line (inr e) = ground (arith, e)

  line_harmless :
      (managed : Bool) (r : Reading L) (line : List ℕ)
      → Sectioned r
      → WhenOk
          (λ next. Sectioned next × (acts_on managed line ≡ false))
          (read_line L managed r line)
  unfolding Sectioned acts_on IsPlain IsField
  line_harmless managed r line s =
      WhenOk-mono
        (λ next k. elim k [
          | inl (skipped, same, named) ↦ (
            elim named [ inl e ↦ subst (λ t. (t ≡ []) ⊎ IsSection t) (sym e) s | inr m ↦ inr m ],
            plain_line managed line skipped,
          )
          | inr field ↦ (
            subst (λ t. (t ≡ []) ⊎ IsSection t) (sym field.5) s,
            ground (arith, acts_not managed r line next s field),
          )
        ])
        (line_reached L managed r line)

  -- Where `Parse` or `ParseManaged` accepts a text, then in whatever letters and in any section no
  -- line of it but a comment or a header has the key PreUp, PostUp, PreDown, PostDown or SaveConfig
  -- of wg-quick, and a line has the key Table only for a managed profile and only with the value off;
  -- of a key, what follows a # is not read.
  pub parse_harmless :
      (managed : Bool) (text : List ℕ) (result : Profile L × Summary)
      → parse L managed text ≡ ok result
      → All (λ line. acts_on managed (trim line) ≡ false) (scan_lines text)
  unfolding Sectioned start
  parse_harmless managed text result h =
      ((parse_reached L {P = Sectioned} {Q = λ line. acts_on managed line ≡ false}
          {R = λ _. Unit {0}} managed (line_harmless managed) (inl refl)
          (λ r s. always_holds (λ _. tt)) text).known
        result h).1
