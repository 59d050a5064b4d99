-- ===== src/Wgconfig/Tests.antt =====
-- The theorems on profiles at a small library and a short profile.
use nft_firewall_v.Prelude.{
  ℕ, ◌≤◌, Bool, true, false, ◌≡◌, refl, sym, ap, subst, List, [], ◌∷◌, ◌++◌, Option, none, some, ok,
  arith, codes, length, guard_against, all_in, All, if◌then◌else◌, zero, suc,
}
use nft_firewall_v.Wgconfig.Text.{
  size, is_empty, text_eq, has, text_lt, is_space, trim_left, trim_right, trim, has_prefix,
  has_suffix, trim_prefix, trim_suffix, before, after, cut, push, split, join, drop_end, drop_each,
  scan_lines, write_lines,
}
use nft_firewall_v.Wgconfig.Text.Order.{text_eq_sound}
use nft_firewall_v.Wgconfig.Text.Plain.{is_plain, IsPlain}
use nft_firewall_v.Wgconfig.{
  Library, plus, Profile, max_profile_bytes, is_interface_char, valid_interface_name,
  usable_address, usable4, valid_endpoint_host, valid_key, usable_prefixes, keys_valid,
  required_missing, default_route, validate,
}
use nft_firewall_v.Wgconfig.Fields.{
  is_command, field_of, trim_items, split_list, in_range, or_error, insert_prefix, sort_prefixes,
  read_prefixes, parse_prefixes, read_servers, parse_servers, check_endpoint, parse_endpoint,
  set_peer, assign_field, assign,
}
use nft_firewall_v.Wgconfig.Parse.{
  Summary, contains_zero, size_invalid, is_skipped, is_header, header_name, identity_of,
  token_too_long, empty_peer, empty_profile, start, enter, store_field, read_field, read_line,
  read_lines, summary_of, finish_profile, parse,
}
use nft_firewall_v.Wgconfig.Print.{
  field_line, optional, address_texts, prefix_texts, endpoint_lines, peer_lines, table_lines,
  mtu_lines, normalized_lines, normalized_wg_quick, set_config_lines, wg_set_config,
}
use nft_firewall_v.Wgconfig.Accepted.Commands.{acts_on, parse_harmless}
use nft_firewall_v.Wgconfig.Accepted.Managed.{parse_managed}
use nft_firewall_v.Wgconfig.Accepted.Valid.{IsAccepted, parse-IsAccepted}
use nft_firewall_v.Wgconfig.Roundtrip.Values.{IsLibrary}
use nft_firewall_v.Wgconfig.Roundtrip.Injection.{wg_set_config-scan_lines}
use nft_firewall_v.Wgconfig.Roundtrip.Whole.{normalized_wg_quick-parse}

abbrev ones : ℕ → List ℕ
ones zero = []
ones (suc n) = b'1' ∷ ones n

abbrev host : List ℕ
host = codes "10.0.0.2"

abbrev one_less : ℕ → ℕ
one_less zero = 0
one_less (suc n) = n

address_of : List ℕ → Bool
unfolding text_eq
address_of t = text_eq t host

prefix_of : List ℕ → Option Bool
unfolding text_eq
prefix_of t =
    if text_eq t (codes "0.0.0.0/0")
    then some true
    else if text_eq t (codes "10.0.0.2/32")
    then some false
    else none

abbrev text_of : Bool → List ℕ
text_of true = codes "0.0.0.0/0"
text_of false = codes "10.0.0.2/32"

abbrev bits_of : Bool → ℕ
bits_of true = 0
bits_of false = 32

-- One address and two prefixes; a number is a row of digits, and a key is 32 of them.
abbrev library : Library
library = record {
  Addr = Bool;
  Prefix = Bool;
  parse_addr = λ t. some (address_of t);
  addr_text = λ a. host;
  is4 = λ a. a;
  is_valid = λ a. true;
  is_unspecified = λ a. false;
  is_loopback = λ a. false;
  is_multicast = λ a. false;
  is_link_local_unicast = λ a. false;
  parse_prefix = prefix_of;
  prefix_text = text_of;
  masked = λ p. p;
  addr = λ p. true;
  bits = bits_of;
  split_host_port = cut b':';
  join_host_port = λ h port. h ++ (b':' ∷ port);
  atoi = λ t. some (plus (one_less (length t)));
  parse_uint16 = λ t. some (one_less (length t));
  itoa = λ n. ones (suc n);
  decode_key = λ t. some t;
  encode_key = λ bytes. ones (length bytes);
}

length-ones : (n : ℕ) → length (ones n) ≡ n
length-ones zero = refl
length-ones (suc n) = ap suc (length-ones n)

ones_plain : (n : ℕ) → all_in is_plain (ones n) ≡ true
unfolding all_in is_plain is_space
ones_plain zero = refl
ones_plain (suc n) = ones_plain n

some_ones : (n : ℕ) → IsPlain (ones (suc n))
unfolding IsPlain is_empty
some_ones n = (refl, ones_plain (suc n))

-- One host is valid.
valid_host : (h : List ℕ) → valid_endpoint_host library h ≡ true → h ≡ host
unfolding valid_endpoint_host usable4 usable_address address_of
valid_host h v = text_eq_sound h host (ground (arith, v))

host_known :
    (h : List ℕ) (n : ℕ)
    → h ≡ host
    → (cut b':' (h ++ (b':' ∷ ones (suc n))) ≡ some (h, ones (suc n)))
      × IsPlain (h ++ (b':' ∷ ones (suc n)))
unfolding cut before after IsPlain is_empty all_in is_plain is_space
host_known h n e =
    subst
      (λ x.
        (cut b':' (x ++ (b':' ∷ ones (suc n))) ≡ some (x, ones (suc n)))
        × IsPlain (x ++ (b':' ∷ ones (suc n))))
      (sym e) (refl, (refl, ones_plain n))

library_known : IsLibrary library
unfolding prefix_of text_eq address_of IsPlain is_empty all_in is_plain is_space cut before after
    valid_endpoint_host usable4 usable_address
library_known = record {
  prefix_read = λ t p e f. elim p as (λ q. (prefix_of (text_of q) ≡ some q) × IsPlain (text_of q)) [
    | true ↦ (refl, (refl, refl))
    | false ↦ (refl, (refl, refl))
  ];
  default_read = λ t p e f.
      elim p as (λ q. bits_of q ≡ 0 → prefix_of (codes "0.0.0.0/0") ≡ some q) [
        | true ↦ λ b. refl
        | false ↦ λ b. absurd (omega (arith, b))
      ];
  masked_twice = λ p. refl;
  addr_read = λ t a e f. (ap some (sym f), (refl, refl));
  number_read = λ n small. (ap (λ k. some (plus k)) (length-ones n), some_ones n);
  port_read = λ t n e. ap some (length-ones n);
  host_read = λ h n v. host_known h n (valid_host h v);
  key_plain = λ bytes e. subst (λ k. IsPlain (ones k)) (sym e) (some_ones 31);
}

abbrev key : List ℕ
key = ones 32

abbrev sample : List ℕ
sample = write_lines (
    codes "[Interface]"
    ∷ field_line (codes "PrivateKey") key
    ∷ codes "Address=10.0.0.2/32"
    ∷ codes "# the provider's resolver"
    ∷ codes "DNS = 10.0.0.2"
    ∷ codes "[Peer]"
    ∷ field_line (codes "PublicKey") key
    ∷ codes "AllowedIPs = 0.0.0.0/0"
    ∷ codes "Endpoint = 10.0.0.2:11"
    ∷ [])

abbrev sample_profile : Profile library
sample_profile = record {
  private_key = key;
  addresses = false ∷ [];
  dns = true ∷ [];
  mtu = 0;
  peer = record {
    public_key = key;
    preshared_key = [];
    allowed_ips = true ∷ [];
    endpoint_host = host;
    endpoint_port = 1;
    persistent_keepalive = 0;
  };
}

abbrev sample_result : Profile library × Summary
sample_result = (sample_profile, summary_of library sample_profile)

sample_parsed : parse library false sample ≡ ok sample_result
unfolding parse guard_against size_invalid size is_empty contains_zero max_profile_bytes
    token_too_long split push scan_lines drop_end drop_each trim_suffix start empty_profile
    empty_peer read_lines read_line is_skipped is_header has_prefix has_suffix header_name trim
    trim_left trim_right is_space trim_prefix enter text_eq has read_field cut before after
    store_field identity_of assign field_of is_command assign_field parse_prefixes split_list
    trim_items read_prefixes sort_prefixes insert_prefix text_lt parse_servers read_servers usable4
    usable_address in_range parse_endpoint check_endpoint valid_endpoint_host set_peer or_error
    finish_profile validate keys_valid valid_key required_missing usable_prefixes default_route
    summary_of address_of prefix_of write_lines field_line
sample_parsed = refl

parse-IsAccepted_example :
    IsAccepted library sample_profile × (sample_result.1 ≡ summary_of library sample_profile)
parse-IsAccepted_example = parse-IsAccepted library false sample sample_result sample_parsed

parse_harmless_example : All (λ line. acts_on false (trim line) ≡ false) (scan_lines sample)
parse_harmless_example = parse_harmless library false sample sample_result sample_parsed

parse_managed_example : parse library true sample ≡ ok sample_result
parse_managed_example = parse_managed library sample sample_result sample_parsed

sample_size : size (write_lines (normalized_lines library sample_profile)) ≤ max_profile_bytes
unfolding size write_lines normalized_lines field_line join prefix_texts address_texts optional
    mtu_lines table_lines peer_lines endpoint_lines is_empty max_profile_bytes
sample_size = omega arith

normalized_wg_quick-parse_example :
    (out : List ℕ) × (normalized_wg_quick library sample_profile (codes "nftfw0") ≡ ok out)
    × (parse library true out ≡ ok sample_result)
unfolding valid_interface_name size is_interface_char all_in
normalized_wg_quick-parse_example =
    normalized_wg_quick-parse library library_known false sample (codes "nftfw0") sample_result
      sample_parsed refl sample_size

wg_set_config-scan_lines_example :
    (out : List ℕ) × (wg_set_config library sample_profile true ≡ ok out)
    × (scan_lines out ≡ set_config_lines library sample_profile true)
unfolding usable4 usable_address text_eq address_of
wg_set_config-scan_lines_example =
    wg_set_config-scan_lines library library_known false sample sample_result true sample_parsed
      refl refl
