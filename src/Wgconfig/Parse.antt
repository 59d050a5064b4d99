-- ===== src/Wgconfig/Parse.antt =====
-- internal/wgconfig/profile.go: `parse`, line by line.
use nft_firewall_v.Prelude.{
  ℕ, String, Bool, true, false, not, ◌&&◌, ◌||◌, List, [], ◌∷◌, ◌++◌, Option, none, some, Outcome,
  ok, err, ◌>>=◌, ◌>>◌, guard_against, if◌then◌else◌, ◌==◌, ltb, leb, codes, length,
}
use nft_firewall_v.Wgconfig.Text.{
  size, is_empty, text_eq, has, trim, has_prefix, has_suffix, trim_prefix, trim_suffix, cut, split,
  scan_lines,
}
use nft_firewall_v.Wgconfig.{Library, Peer, Profile, validate, max_profile_bytes}
use nft_firewall_v.Wgconfig.Fields.{assign}

pub record Summary : Type 0 where
  pub address_count : ℕ
  pub dns_count : ℕ
  pub has_mtu : Bool
  pub has_preshared_key : Bool
  pub has_keepalive : Bool
  pub ipv4_default_route : Bool

unfoldable pub contains_zero : List ℕ → Bool
contains_zero [] = false
contains_zero (c ∷ cs) = c == 0 || contains_zero cs

unfoldable pub size_invalid : List ℕ → Bool
unfolding size is_empty contains_zero max_profile_bytes
size_invalid data_text =
    is_empty data_text || ltb max_profile_bytes (size data_text) || contains_zero data_text

unfoldable pub is_skipped : List ℕ → Bool
unfolding is_empty has_prefix
is_skipped line = is_empty line || has_prefix b'#' line || has_prefix b';' line

unfoldable pub is_header : List ℕ → Bool
unfolding has_prefix has_suffix
is_header line = has_prefix b'[' line && has_suffix b']' line

unfoldable pub header_name : List ℕ → List ℕ
unfolding trim trim_prefix trim_suffix
header_name line = trim (trim_suffix b']' (trim_prefix b'[' line))

unfoldable pub identity_of : List ℕ → List ℕ → List ℕ
identity_of section key = section ++ (b'.' ∷ key)

-- The scanner's buffer is full before the first line ends.
unfoldable pub token_too_long : List (List ℕ) → Bool
unfolding size max_profile_bytes
token_too_long [] = false
token_too_long (t ∷ ts) = leb max_profile_bytes (size t)

module _ (L : Library) where
  -- The variables of the loop; the section is empty before the first header.
  pub record Reading : Type 0 where
    pub profile : Profile L
    pub section : List ℕ
    pub seen_sections : List (List ℕ)
    pub seen_keys : List (List ℕ)

  unfoldable pub empty_peer : Peer L
  empty_peer = record {
    public_key = [];
    preshared_key = [];
    allowed_ips = [];
    endpoint_host = [];
    endpoint_port = 0;
    persistent_keepalive = 0;
  }

  unfoldable pub empty_profile : Profile L
  unfolding empty_peer
  empty_profile = record { private_key = []; addresses = []; dns = []; mtu = 0; peer = empty_peer }

  unfoldable pub start : Reading
  unfolding empty_profile
  start = record { profile = empty_profile; section = []; seen_sections = []; seen_keys = [] }

  unfoldable pub enter : Reading → List ℕ → Outcome String Reading
  unfolding text_eq has
  enter r name = do
    guard_against (not (text_eq name (codes "Interface")) && not (text_eq name (codes "Peer")))
        "VPN_PROFILE_SECTION_UNSUPPORTED"
    guard_against (has name r.seen_sections) "VPN_PROFILE_SECTION_DUPLICATE"
    ok (record r { section = name; seen_sections = name ∷ r.seen_sections })

  unfoldable pub store_field : Bool → Reading → List ℕ → List ℕ → Outcome String Reading
  unfolding has assign
  store_field managed r identity value = do
    guard_against (has identity r.seen_keys) "VPN_PROFILE_FIELD_DUPLICATE"
    p ← assign L managed r.profile identity value
    ok (record r { profile = p; seen_keys = identity ∷ r.seen_keys })

  unfoldable pub read_field : Bool → Reading → Option (List ℕ × List ℕ) → Outcome String Reading
  unfolding store_field identity_of trim
  read_field managed r none = err "VPN_PROFILE_LINE_INVALID"
  read_field managed r (some parts) =
      store_field managed r (identity_of r.section (trim (parts.0))) (trim (parts.1))

  -- A round of the loop, on a trimmed line.
  unfoldable pub read_line : Bool → Reading → List ℕ → Outcome String Reading
  unfolding is_skipped is_header header_name enter read_field cut is_empty
  read_line managed r line =
      if is_skipped line
      then ok r
      else if is_header line
      then enter r (header_name line)
      else guard_against (is_empty r.section) "VPN_PROFILE_SECTION_MISSING"
        >> read_field managed r (cut b'=' line)

  unfoldable pub read_lines : Bool → Reading → List (List ℕ) → Outcome String Reading
  unfolding read_line trim
  read_lines managed r [] = ok r
  read_lines managed r (line ∷ rest) = elim (read_line managed r (trim line)) [
    | err e ↦ err e
    | ok next ↦ read_lines managed next rest
  ]

  unfoldable pub summary_of : Profile L → Summary
  unfolding is_empty
  summary_of p = record {
    address_count = length p.addresses;
    dns_count = length p.dns;
    has_mtu = not (p.mtu == 0);
    has_preshared_key = not (is_empty p.peer.preshared_key);
    has_keepalive = not (p.peer.persistent_keepalive == 0);
    ipv4_default_route = true;
  }

  -- What follows the loop.
  unfoldable pub finish_profile : Reading → Outcome String (Profile L × Summary)
  unfolding has validate summary_of
  finish_profile r = do
    guard_against
        (not (has (codes "Interface") r.seen_sections) || not (has (codes "Peer") r.seen_sections))
        "VPN_PROFILE_SECTION_MISSING"
    validate L r.profile
    ok (r.profile, summary_of r.profile)

  -- `parse`; `Parse` and `ParseManaged` call it with false and true.
  unfoldable pub parse : Bool → List ℕ → Outcome String (Profile L × Summary)
  unfolding size_invalid token_too_long split scan_lines start read_lines finish_profile
  parse managed text = do
    guard_against (size_invalid text) "VPN_PROFILE_SIZE_INVALID"
    guard_against (token_too_long (split 10 text)) "VPN_PROFILE_READ_FAILED"
    r ← read_lines managed start (scan_lines text)
    finish_profile r
