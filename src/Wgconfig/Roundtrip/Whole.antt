-- ===== src/Wgconfig/Roundtrip/Whole.antt =====
-- The whole text that `NormalizedWGQuick` of internal/wgconfig/profile.go writes.
use nft_firewall_v.Prelude.{
  ℕ, ◌≤◌, Bool, true, false, not, ◌||◌, ◌≡◌, ◌∙◌, refl, sym, ap, List, [], ◌∷◌, ◌++◌, ok, ◌==◌, ltb,
  arith, codes, length, guard_against, All, All-mono,
}
use nft_firewall_v.Wgconfig.Text.{size, is_empty, text_eq, has, split, write_lines}
use nft_firewall_v.Wgconfig.Text.Laws.{IsLine, split_write, scan_write}
use nft_firewall_v.Wgconfig.{Library, Profile, valid_interface_name, max_profile_bytes}
use nft_firewall_v.Wgconfig.Parse.{
  Summary, Reading, read_lines, finish_profile, summary_of, parse, size_invalid, token_too_long,
  start,
}
use nft_firewall_v.Wgconfig.Print.{
  peer_lines, table_lines, mtu_lines, normalized_lines, normalized_wg_quick,
}
use nft_firewall_v.Wgconfig.Accepted.Profiles.{IsProfile, parse-IsProfile}
use nft_firewall_v.Wgconfig.Accepted.Valid.{IsAccepted, IsProfile-IsAccepted}
use nft_firewall_v.Wgconfig.Roundtrip.{reading, has-add_if, add_if}
use nft_firewall_v.Wgconfig.Roundtrip.Values.{IsLibrary}
use nft_firewall_v.Wgconfig.Roundtrip.Written.{
  interface_name, peer_name, interface_keys, first_keys, required_steps, optional_steps,
}
use nft_firewall_v.Wgconfig.Roundtrip.Peers.{IsFresh, last_keys, peer_steps}
use nft_firewall_v.Wgconfig.Roundtrip.Unbroken.{
  IsWritten, zero_lacks, lacks-write_lines, all-IsWritten,
}

fits_in :
    (a b : Bool) (n : ℕ)
    → a ≡ false
    → b ≡ false
    → n ≤ max_profile_bytes
    → (a || ltb max_profile_bytes n || b) ≡ false
fits_in a b n h k m = ground (arith, h, k, m)

module _ (L : Library) (p : Profile L) where
  written_there : is_empty (write_lines (normalized_lines L p)) ≡ false
  unfolding is_empty write_lines normalized_lines
  written_there = refl

  first_fits : token_too_long (normalized_lines L p ++ ([] ∷ [])) ≡ false
  unfolding token_too_long normalized_lines size max_profile_bytes
  first_fits = refl

module _ (L : Library) (known : IsLibrary L) (p : Profile L) where
  unseen :
      (i : List ℕ)
      → text_eq i (codes "Interface.MTU") ≡ false
      → text_eq i (codes "Interface.DNS") ≡ false
      → has i (first_keys L known p) ≡ false
      → has i (
          add_if
            (not (p.mtu == 0))
            (codes "Interface.MTU")
            (add_if (ltb 0 (length p.dns)) (codes "Interface.DNS") (first_keys L known p)))
        ≡ false
  unseen i m d h =
      has-add_if i _ (not (p.mtu == 0)) _ m (has-add_if i _ (ltb 0 (length p.dns)) _ d h)

  keys-IsFresh : IsFresh (interface_keys L known p)
  unfolding IsFresh has text_eq
  keys-IsFresh = (
    unseen (codes "Peer.PublicKey") refl refl refl,
    unseen (codes "Peer.PresharedKey") refl refl refl,
    unseen (codes "Peer.AllowedIPs") refl refl refl,
    unseen (codes "Peer.Endpoint") refl refl refl,
    unseen (codes "Peer.PersistentKeepalive") refl refl refl,
  )

  no_more : (r : Reading L) → read_lines L true r [] ≡ ok r
  unfolding read_lines
  no_more r = refl

  lines_read :
      IsAccepted L p
      → IsProfile L p
      → read_lines L true (start L) (normalized_lines L p)
        ≡ ok (
            reading L p peer_name
              (peer_name ∷ interface_name ∷ [])
              (last_keys L known p (interface_keys L known p)))
  unfolding normalized_lines mtu_lines table_lines
  lines_read accepted kept =
      required_steps L known p _ accepted kept
      ∙ optional_steps L known p (peer_lines L p p.peer.endpoint_host) accepted kept
      ∙ peer_steps L known p (interface_keys L known p) keys-IsFresh accepted kept
      ∙ no_more _

  finished :
      (ks : List (List ℕ))
      → IsProfile L p
      → finish_profile L (reading L p peer_name (peer_name ∷ interface_name ∷ []) ks)
        ≡ ok (p, summary_of L p)
  unfolding finish_profile reading guard_against has text_eq IsProfile
  finished ks kept = rw kept.0 refl

  write_fits :
      IsAccepted L p
      → IsProfile L p
      → size (write_lines (normalized_lines L p)) ≤ max_profile_bytes
      → size_invalid (write_lines (normalized_lines L p)) ≡ false
  unfolding size_invalid
  write_fits accepted kept fits =
      fits_in _ _ (size (write_lines (normalized_lines L p))) (written_there L p)
        (zero_lacks _ ∙ ap not (lacks-write_lines _ (all-IsWritten L known p accepted kept))) fits

  lines_known : IsAccepted L p → IsProfile L p → All IsLine (normalized_lines L p)
  unfolding IsLine IsWritten
  lines_known accepted kept =
      All-mono (λ t h. (h.0, h.1)) (normalized_lines L p) (all-IsWritten L known p accepted kept)

  line_fits :
      IsAccepted L p
      → IsProfile L p
      → token_too_long (split 10 (write_lines (normalized_lines L p))) ≡ false
  line_fits accepted kept =
      ap token_too_long (split_write _ (lines_known accepted kept)) ∙ first_fits L p

  -- The text is read as the profile.
  written_parse :
      IsAccepted L p
      → IsProfile L p
      → size (write_lines (normalized_lines L p)) ≤ max_profile_bytes
      → parse L true (write_lines (normalized_lines L p)) ≡ ok (p, summary_of L p)
  unfolding parse guard_against
  written_parse accepted kept fits =
      rw
        (
          parse,
          write_fits accepted kept fits,
          line_fits accepted kept,
          scan_write _ (lines_known accepted kept),
          lines_read accepted kept,
        )
        (finished _ kept)

-- Where `Parse` or `ParseManaged` accepts a text, `NormalizedWGQuick` for a valid interface name
-- gives a text, and `ParseManaged` reads that as the same profile with the same summary, if it has
-- at most the bytes that a profile may have. Of the packages it is assumed that they read what they
-- print as the same value, and print no space or comma.
pub normalized_wg_quick-parse :
    (L : Library) (known : IsLibrary L) (managed : Bool) (text name : List ℕ)
    (result : Profile L × Summary)
    → parse L managed text ≡ ok result
    → valid_interface_name name ≡ true
    → size (write_lines (normalized_lines L (result.0))) ≤ max_profile_bytes
    → (out : List ℕ) × (normalized_wg_quick L (result.0) name ≡ ok out)
      × (parse L true out ≡ ok result)
unfolding IsProfile normalized_wg_quick guard_against
normalized_wg_quick-parse L known managed text name (p, s) h valid fits =
    let (kept, same) = parse-IsProfile L managed text (p, s) h in
    let accepted = IsProfile-IsAccepted L p kept in
    (
      write_lines (normalized_lines L p),
      rw (normalized_wg_quick, valid, kept.0) refl,
      written_parse L known p accepted kept fits ∙ ap (λ x. ok (p, x)) (sym same),
    )
