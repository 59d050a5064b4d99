-- ===== src/Wgconfig/Accepted/Managed.antt =====
-- A profile that `Parse` accepts is the same profile for `ParseManaged`.
use nft_firewall_v.Prelude.{
  ℕ, true, false, ◌≡◌, refl, List, [], ◌∷◌, Option, none, some, ok, Outcome, WhenOk, WhenOk-mono,
  ok_holds, err_holds, if_holds, refusal_holds, step_holds, guard_against, ◌>>=◌,
}
use nft_firewall_v.Wgconfig.Text.{trim, cut, scan_lines, is_empty, has, split}
use nft_firewall_v.Wgconfig.{Library, Profile}
use nft_firewall_v.Wgconfig.Fields.{
  Field, private_key, address, dns, mtu, public_key, preshared_key, allowed_ips, endpoint,
  persistent_keepalive, table, command, unsupported, assign, assign_field, field_of,
}
use nft_firewall_v.Wgconfig.Parse.{
  Reading, Summary, start, is_skipped, is_header, store_field, read_field, read_line, read_lines,
  finish_profile, parse, size_invalid, token_too_long,
}

-- Where the first outcome is a value, the second is the same one.
abbrev Extends {ℓ κ} : {E : Type ℓ} {V : Type κ} → Outcome E V → Outcome E V → Type (ℓ ⊔ κ)
Extends o wider = WhenOk (λ v. wider ≡ ok v) o

Extends-itself {ℓ κ} : {E : Type ℓ} {V : Type κ} (o : Outcome E V) → Extends o o
Extends-itself o = record { known = λ v e. e }

module _ {ℓ κ μ} {E : Type ℓ} {V : Type κ} {W : Type μ} where
  step-Extends :
      (step wider : Outcome E V) (rest more : V → Outcome E W)
      → Extends step wider
      → ((v : V) → Extends (rest v) (more v))
      → Extends (step >>= rest) (wider >>= more)
  step-Extends step wider rest more h k =
      step_holds step (λ v e. WhenOk-mono (λ w m. rw (h.known v e) m) (k v))

module _ (L : Library) where
  assign_field-managed :
      (p : Profile L) (f : Field) (value : List ℕ)
      → Extends (assign_field L false p f value) (assign_field L true p f value)
  unfolding assign_field
  assign_field-managed p private_key value = Extends-itself _
  assign_field-managed p address value = Extends-itself _
  assign_field-managed p dns value = Extends-itself _
  assign_field-managed p mtu value = Extends-itself _
  assign_field-managed p public_key value = Extends-itself _
  assign_field-managed p preshared_key value = Extends-itself _
  assign_field-managed p allowed_ips value = Extends-itself _
  assign_field-managed p endpoint value = Extends-itself _
  assign_field-managed p persistent_keepalive value = Extends-itself _
  assign_field-managed p table value = err_holds
  assign_field-managed p command value = err_holds
  assign_field-managed p unsupported value = err_holds

  assign-managed :
      (p : Profile L) (identity value : List ℕ)
      → Extends (assign L false p identity value) (assign L true p identity value)
  unfolding assign
  assign-managed p identity value =
      if_holds (is_empty value) (λ e. err_holds)
        (λ e. WhenOk-mono (λ q h. rw e h) (assign_field-managed p (field_of identity) value))

  store_field-managed :
      (r : Reading L) (identity value : List ℕ)
      → Extends (store_field L false r identity value) (store_field L true r identity value)
  unfolding store_field guard_against
  store_field-managed r identity value = refusal_holds (has identity r.seen_keys) _ (λ new.
      WhenOk-mono (λ next h. rw new h)
        (step-Extends (assign L false r.profile identity value) _ _ _
          (assign-managed r.profile identity value) (λ p. Extends-itself _)))

  read_field-managed :
      (r : Reading L) (parts : Option (List ℕ × List ℕ))
      → Extends (read_field L false r parts) (read_field L true r parts)
  unfolding read_field
  read_field-managed r none = err_holds
  read_field-managed r (some parts) = store_field-managed r _ _

  read_line-managed :
      (r : Reading L) (line : List ℕ) → Extends (read_line L false r line) (read_line L true r line)
  unfolding read_line guard_against
  read_line-managed r line =
      if_holds (is_skipped line) (λ e. ok_holds (rw e refl))
        (λ e.
          if_holds (is_header line) (λ f. WhenOk-mono (λ next h. rw (e, f) h) (Extends-itself _))
            (λ f. refusal_holds _ _ (λ there.
              WhenOk-mono (λ next h. rw (e, f, there) h) (read_field-managed r (cut b'=' line)))))

  read_lines-managed :
      (r : Reading L) (lines : List (List ℕ))
      → Extends (read_lines L false r lines) (read_lines L true r lines)
  unfolding read_lines
  read_lines-managed r [] = ok_holds refl
  read_lines-managed r (line ∷ rest) =
      step-Extends (read_line L false r (trim line)) (read_line L true r (trim line)) _ _
        (read_line-managed r (trim line)) (λ next. read_lines-managed next rest)

  parse-Extends : (text : List ℕ) → Extends (parse L false text) (parse L true text)
  unfolding parse guard_against
  parse-Extends text = refusal_holds (size_invalid text) _ (λ sized.
      refusal_holds (token_too_long (split 10 text)) _ (λ scanned.
        WhenOk-mono (λ result h. rw (sized, scanned) h)
          (step-Extends (read_lines L false (start L) (scan_lines text)) _ _ _
            (read_lines-managed (start L) (scan_lines text))
            (λ r. Extends-itself (finish_profile L r)))))

  -- Where `Parse` accepts a text, `ParseManaged` gives the same profile and summary for it.
  pub parse_managed :
      (text : List ℕ) (result : Profile L × Summary)
      → parse L false text ≡ ok result
      → parse L true text ≡ ok result
  parse_managed text result h = (parse-Extends text).known result h
