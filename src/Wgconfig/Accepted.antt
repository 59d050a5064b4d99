-- ===== src/Wgconfig/Accepted.antt =====
-- What the loop of internal/wgconfig/profile.go does on a text that it accepts, and that an
-- accepted text has no key of a hook.
pub mod Commands
pub mod Managed
pub mod Profiles
pub mod Valid
use nft_firewall_v.Prelude.{
  ℕ, Bool, true, false, not, ◌&&◌, ◌||◌, ◌≡◌, ◌⊎◌, inl, inr, refl, sym, subst, List, [], ◌∷◌,
  Option, none, some, ok, err, ◌>>=◌, ◌>>◌, guard_against, WhenOk, WhenOk-mono, ok_holds, err_holds,
  refusal_holds, if_holds, step_holds, if◌then◌else◌, codes, All, Bool-cases, arith, String,
  Outcome,
}
use nft_firewall_v.Wgconfig.Text.{text_eq, has, trim, cut, scan_lines, split, is_empty}
use nft_firewall_v.Wgconfig.Text.Order.{text_eq_sound}
use nft_firewall_v.Wgconfig.{Library, Profile}
use nft_firewall_v.Wgconfig.Fields.{assign, assign_field, field_of, is_command}
use nft_firewall_v.Wgconfig.Parse.{
  Summary, Reading, start, is_skipped, is_header, header_name, identity_of, enter, store_field,
  read_field, read_line, read_lines, finish_profile, parse, size_invalid, token_too_long,
}

unfoldable pub IsSection : List ℕ → Type 0
IsSection s = (s ≡ codes "Interface") ⊎ (s ≡ codes "Peer")

name_cases : (a b : Bool) → (not a && not b) ≡ false → (a ≡ true) ⊎ (b ≡ true)
name_cases true b h = inl refl
name_cases false true h = inr refl
name_cases false false h = cc

module _ (L : Library) where
  -- A line that was accepted and is not a field.
  unfoldable pub IsPlain : Reading L → List ℕ → Reading L → Type 0
  IsPlain r line next =
      ((is_skipped line ≡ true) ⊎ (is_header line ≡ true))
      × (next.profile ≡ r.profile)
      × ((next.section ≡ r.section) ⊎ IsSection next.section)

  -- A line that was accepted as a field.
  unfoldable pub IsField : Bool → Reading L → List ℕ → Reading L → Type 0
  IsField managed r line next =
      (key value : List ℕ) × (is_empty r.section ≡ false)
      × (cut b'=' line ≡ some (key, value))
      × (assign L managed r.profile (identity_of r.section (trim key)) (trim value)
          ≡ ok next.profile)
      × (next.section ≡ r.section)

  enter_reached :
      (r : Reading L) (name : List ℕ)
      → WhenOk (λ next. (next.profile ≡ r.profile) × IsSection next.section) (enter L r name)
  unfolding enter IsSection
  enter_reached r name = refusal_holds _ _ (λ known. refusal_holds _ _ (λ new. ok_holds (
    refl,
    elim (name_cases (text_eq name (codes "Interface")) _ known) [
      | inl e ↦ inl (text_eq_sound name _ e)
      | inr e ↦ inr (text_eq_sound name _ e)
    ],
  )))

  IsField-reached :
      (managed : Bool) (r : Reading L) (line : List ℕ) (parts : Option (List ℕ × List ℕ))
      → is_empty r.section ≡ false
      → cut b'=' line ≡ parts
      → WhenOk (IsField managed r line) (read_field L managed r parts)
  unfolding read_field store_field IsField
  IsField-reached managed r line none there e = err_holds
  IsField-reached managed r line (some (key, value)) there e =
      refusal_holds _ _
        (λ new. step_holds _ (λ p assigned. ok_holds (key, value, there, e, assigned, refl)))

  -- What a round of the loop that was accepted has done.
  pub line_reached :
      (managed : Bool) (r : Reading L) (line : List ℕ)
      → WhenOk
          (λ next. IsPlain r line next ⊎ IsField managed r line next)
          (read_line L managed r line)
  unfolding read_line IsPlain
  line_reached managed r line =
      if_holds (is_skipped line) (λ e. ok_holds (inl (inl e, refl, inl refl)))
        (λ e.
          if_holds (is_header line)
            (λ f.
              WhenOk-mono (λ next (p, s). inl (inr f, p, inr s))
                (enter_reached r (header_name line)))
            (λ f. refusal_holds _ _ (λ there.
              WhenOk-mono (λ next k. inr k) (IsField-reached managed r line _ there refl))))

  -- What holds before each round and of each line.
  pub lines_reached {ℓ κ} :
      {P : Reading L → Type ℓ} {Q : List ℕ → Type κ} (managed : Bool)
      → ((r : Reading L) (line : List ℕ)
          → P r
          → WhenOk (λ next. P next × Q line) (read_line L managed r line))
      → (r : Reading L) (lines : List (List ℕ)) → P r
      → WhenOk (λ last. P last × All (λ line. Q (trim line)) lines) (read_lines L managed r lines)
  unfolding read_lines
  lines_reached managed h r [] p = ok_holds (p, tt)
  lines_reached managed h r (line ∷ rest) p =
      step_holds (read_line L managed r (trim line)) (λ next e.
        let now = (h r (trim line) p).known next e in
        WhenOk-mono (λ last k. (k.0, (now.1, k.1))) (lines_reached managed h next rest now.0))

  -- What holds of the loop's variables when `parse` returns a profile, and of the text's lines.
  pub parse_reached {ℓ κ μ} :
      {P : Reading L → Type ℓ} {Q : List ℕ → Type κ} {R : Profile L × Summary → Type μ}
      (managed : Bool)
      → ((r : Reading L) (line : List ℕ)
          → P r
          → WhenOk (λ next. P next × Q line) (read_line L managed r line))
      → P (start L)
      → ((r : Reading L) → P r → WhenOk R (finish_profile L r))
      → (text : List ℕ)
      → WhenOk
          (λ result. R result × All (λ line. Q (trim line)) (scan_lines text))
          (parse L managed text)
  unfolding parse
  parse_reached managed h p k text = refusal_holds _ _ (λ sized. refusal_holds _ _ (λ scanned.
      step_holds _ (λ r e.
        let now = (lines_reached managed h (start L) (scan_lines text) p).known r e in
        WhenOk-mono (λ result m. (m, now.1)) (k r now.0))))
