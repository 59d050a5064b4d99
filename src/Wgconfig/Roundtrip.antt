-- ===== src/Wgconfig/Roundtrip.antt =====
-- `ParseManaged` reads what `NormalizedWGQuick` of internal/wgconfig/profile.go writes.
pub mod Lines
pub mod Values
pub mod Written
pub mod Peers
pub mod Unbroken
pub mod Whole
pub mod Injection
use nft_firewall_v.Prelude.{
  ℕ, ◌≤◌, ◌<◌, Bool, true, false, not, ◌||◌, ◌≡◌, ◌∙◌, ◌⊎◌, inl, inr, refl, sym, ap, subst, List,
  [], ◌∷◌, Option, none, some, ok, err, Outcome, String, ◌==◌, ==_iff, ltb, arith, All, codes,
  length, guard_against, if◌then◌else◌, Bool-cases, ◌>>=◌, ◌>>◌,
}
use nft_firewall_v.Wgconfig.Text.{is_empty, text_eq, has, trim, join, has_prefix, has_suffix}
use nft_firewall_v.Wgconfig.Text.Plain.{IsClean}
use nft_firewall_v.Wgconfig.{Library, Profile, Peer}
use nft_firewall_v.Wgconfig.Fields.{assign_field, assign, field_of, set_peer, or_error}
use nft_firewall_v.Wgconfig.Parse.{Reading, identity_of, read_lines, store_field}
use nft_firewall_v.Wgconfig.Print.{field_line, optional}
use nft_firewall_v.Wgconfig.Roundtrip.Lines.{IsKey, read_line-field}

-- The map of the keys, after a line that was written on a condition.
unfoldable pub add_if : Bool → List ℕ → List (List ℕ) → List (List ℕ)
add_if true k ks = k ∷ ks
add_if false k ks = ks

pub has-add_if :
    (i k : List ℕ) (b : Bool) (ks : List (List ℕ))
    → text_eq i k ≡ false
    → has i ks ≡ false
    → has i (add_if b k ks) ≡ false
unfolding has add_if
has-add_if i k true ks h m = rw h m
has-add_if i k false ks h m = m

module _ (L : Library) where
  unfoldable pub reading : Profile L → List ℕ → List (List ℕ) → List (List ℕ) → Reading L
  reading q s ss ks = record { profile = q; section = s; seen_sections = ss; seen_keys = ks }

  after_line :
      (result : Outcome String (Reading L)) (next : Reading L) (rest : List (List ℕ))
      → result ≡ ok next
      → elim result [ err e ↦ err e | ok last ↦ read_lines L true last rest ]
        ≡ read_lines L true next rest
  after_line result next rest h = rw h refl

  stored :
      (q next : Profile L) (s : List ℕ) (ss ks : List (List ℕ)) (i v : List ℕ)
      → is_empty v ≡ false
      → has i ks ≡ false
      → assign_field L true q (field_of i) v ≡ ok next
      → store_field L true (reading q s ss ks) i v ≡ ok (reading next s ss (i ∷ ks))
  unfolding store_field assign guard_against reading
  stored q next s ss ks i v there new e = rw (store_field, new, there, e) refl

  -- A line of a field that was not seen sets it.
  pub field_step :
      (q next : Profile L) (s : List ℕ) (ss ks : List (List ℕ)) (k v : List ℕ)
      (rest : List (List ℕ))
      → IsKey k
      → IsClean v
      → is_empty s ≡ false
      → has (identity_of s k) ks ≡ false
      → assign_field L true q (field_of (identity_of s k)) v ≡ ok next
      → read_lines L true (reading q s ss ks) (field_line k v ∷ rest)
        ≡ read_lines L true (reading next s ss (identity_of s k ∷ ks)) rest
  unfolding read_lines IsClean reading
  field_step q next s ss ks k v rest key clean there new e =
      after_line _ (reading next s ss (identity_of s k ∷ ks)) rest (
        read_line-field L (reading q s ss ks) k v key clean there
        ∙ stored q next s ss ks (identity_of s k) v clean.0 new e)

  -- A line that is written on a condition, where nothing is set without it.
  pub optional_step :
      (b : Bool) (q next : Profile L) (s : List ℕ) (ss ks : List (List ℕ)) (k v : List ℕ)
      (rest : List (List ℕ))
      → IsKey k
      → is_empty s ≡ false
      → has (identity_of s k) ks ≡ false
      → (b ≡ true → IsClean v × (assign_field L true q (field_of (identity_of s k)) v ≡ ok next))
      → (b ≡ false → q ≡ next)
      → read_lines L true (reading q s ss ks) (optional b (field_line k v) rest)
        ≡ read_lines L true (reading next s ss (add_if b (identity_of s k) ks)) rest
  unfolding optional add_if
  optional_step true q next s ss ks k v rest key there new h m =
      field_step q next s ss ks k v rest key (h refl).0 there new (h refl).1
  optional_step false q next s ss ks k v rest key there new h m =
      ap (λ x. read_lines L true (reading x s ss ks) rest) (m refl)
