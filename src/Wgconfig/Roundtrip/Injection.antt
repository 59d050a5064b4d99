-- ===== src/Wgconfig/Roundtrip/Injection.antt =====
-- The text that is given to `wg` (`WGSetConfig` of internal/wgconfig/profile.go) has the lines that
-- it is built of: no value ends its line.
use nft_firewall_v.Prelude.{
  ℕ, Bool, true, ◌≡◌, refl, List, some, ok, codes, All, All-mono, guard_against,
}
use nft_firewall_v.Wgconfig.Text.{scan_lines, write_lines}
use nft_firewall_v.Wgconfig.Text.Laws.{lacks, IsLine, scan_write}
use nft_firewall_v.Wgconfig.{Library, Profile, usable4, valid_endpoint_host}
use nft_firewall_v.Wgconfig.Parse.{Summary, parse}
use nft_firewall_v.Wgconfig.Print.{set_config_lines, wg_set_config}
use nft_firewall_v.Wgconfig.Accepted.Profiles.{IsProfile, parse-IsProfile}
use nft_firewall_v.Wgconfig.Accepted.Valid.{IsAccepted, IsProfile-IsAccepted}
use nft_firewall_v.Wgconfig.Roundtrip.Values.{IsLibrary, valid_key-IsClean}
use nft_firewall_v.Wgconfig.Roundtrip.Written.{keys_known}
use nft_firewall_v.Wgconfig.Roundtrip.Unbroken.{IsWritten, field-IsWritten, peer-IsWritten}

module _ (L : Library) (known : IsLibrary L) where
  resolved_host :
      (a : L.Addr)
      → usable4 L a ≡ true
      → L.parse_addr (L.addr_text a) ≡ some a
      → valid_endpoint_host L (L.addr_text a) ≡ true
  unfolding valid_endpoint_host
  resolved_host a usable read = rw (valid_endpoint_host, read) usable

  config-IsWritten :
      (p : Profile L) (a : L.Addr)
      → IsAccepted L p
      → valid_endpoint_host L (L.addr_text a) ≡ true
      → All IsWritten (set_config_lines L p a)
  unfolding IsWritten set_config_lines lacks IsAccepted
  config-IsWritten p a accepted host = (
    (refl, refl, refl),
    (
      field-IsWritten (codes "PrivateKey") _ (refl, refl, refl)
          (valid_key-IsClean L known _ (keys_known L p accepted.0).0),
      ((refl, refl, refl), peer-IsWritten L known p (L.addr_text a) host accepted),
    ),
  )

  config_scanned :
      (p : Profile L) (a : L.Addr)
      → IsAccepted L p
      → valid_endpoint_host L (L.addr_text a) ≡ true
      → scan_lines (write_lines (set_config_lines L p a)) ≡ set_config_lines L p a
  unfolding IsLine IsWritten
  config_scanned p a accepted host =
      scan_write _
        (All-mono (λ t h. (h.0, h.1)) (set_config_lines L p a) (config-IsWritten p a accepted host))

-- For a profile that `Parse` or `ParseManaged` returned and a usable IPv4 address that its own text
-- reads as, `WGSetConfig` gives a text whose lines are those that it is built of: no key, address or
-- number begins another line. Of the packages it is assumed that they read what they print as the
-- same value, and print no space or comma.
pub wg_set_config-scan_lines :
    (L : Library) (known : IsLibrary L) (managed : Bool) (text : List ℕ)
    (result : Profile L × Summary) (a : L.Addr)
    → parse L managed text ≡ ok result
    → usable4 L a ≡ true
    → L.parse_addr (L.addr_text a) ≡ some a
    → (out : List ℕ) × (wg_set_config L (result.0) a ≡ ok out)
      × (scan_lines out ≡ set_config_lines L (result.0) a)
unfolding IsProfile wg_set_config guard_against
wg_set_config-scan_lines L known managed text (p, s) a h usable read =
    let (kept, same) = parse-IsProfile L managed text (p, s) h in
    (
      write_lines (set_config_lines L p a),
      rw (wg_set_config, usable, kept.0) refl,
      config_scanned L known p a (IsProfile-IsAccepted L p kept)
          (resolved_host L known a usable read),
    )
