-- ===== src/Claims/Tests.antt =====
-- The theorems on claims at a table with one blocked address.
use nft_firewall_v.Prelude.{
  ℕ, ◌≤◌, ◌<◌, String, true, false, ◌≡◌, ◌↔◌, refl, Option, none, some, List, [], ◌∷◌,
  if◌then◌else◌, ◌==◌, str_eq, str_lt, all_in, length, arith,
}
use nft_firewall_v.Effects.{
  done, died, World, Result, ok, pure, fail, continue, ◌>>=◌, gets, act_on, act, ask, tick_on,
  clock, refuse_when,
}
use nft_firewall_v.Claims.Types.{
  Formats, Claim, Db, is_word, is_letter, before_slash, after_slash, is_first, is_second,
  claim_source_pattern, starts_with, is_allow_source, is_none, validate_claim_metadata, prefix_or,
  parse_claim, family_fits, validate_claim, lives, is_active, active_count,
}
use nft_firewall_v.Claims.Session.{
  Session, begin_tx, commit_tx, exec, query, audit, mark_runtime_claims_degraded,
  mark_claim_publication_dirty,
}
use nft_firewall_v.Claims.Writes.{
  has_claim, has_id, or_no_rows, remove_claim, without, insert_claim, delete_claims, with_defaults,
  refuse_over, add_claim_bounded,
}
use nft_firewall_v.Claims.Replace.{contains, add_value}
use nft_firewall_v.Claims.Publication.{publication, prepare_claim_publication}
use nft_firewall_v.Claims.Revisions.{Request, add, prepare, execute, after, run}
use nft_firewall_v.Claims.Revisions.History.{run_unchanged, run_ordered}
use nft_firewall_v.Claims.Addresses.{effective_addresses}
use nft_firewall_v.Claims.Addresses.Active.{
  active_claims, IsBlocked, IsUnexpired, effective_addresses_iff,
}
use nft_firewall_v.Claims.Addresses.Service.{
  family_of, new_claim, add_parsed, add_block, add_block_blocks,
}
use nft_firewall_v.Claims.Addresses.Countries.{
  unique, limit_of, add_prefix, add_line, load_lines, load_cidrs, load_cidrs_limited,
}
use nft_firewall_v.Claims.Addresses.Countries as Countries
use nft_firewall_v.Claims.Limits.{permanent_count}
use nft_firewall_v.Claims.Limits.Undone.{Numbered, add_claim_bounded-remove_claim}
use nft_firewall_v.Claims.Limits.Replaced.{add_claim_bounded_limited}

abbrev number : String → Option ℕ
number raw =
    if str_eq raw "10.0.0.5/32" then some 5 else if str_eq raw "10.0.0.6/32" then some 6 else none

abbrev text_of : ℕ → String
text_of p = if p == 5 then "10.0.0.5/32" else "10.0.0.6/32"

abbrev formats : Formats
formats = record {
  Addr = ℕ;
  Prefix = ℕ;
  parse_prefix = number;
  parse_addr = λ raw. none;
  host_prefix = λ a. a;
  bits = λ p. 32;
  addr = λ p. p;
  is4 = λ a. true;
  is6 = λ a. false;
  masked = text_of;
  time_text = λ t. "2026-01-01T00:00:00Z";
}

abbrev manual : Claim
manual = record {
  id = 1;
  address = "10.0.0.5/32";
  family = "ipv4";
  source = "manual";
  reason = "scan";
  actor = "admin";
  created_at = "2025-12-01T00:00:00Z";
  expires_at = none;
}

abbrev tables : Db
tables = record {
  claims = manual ∷ [];
  last_id = 1;
  desired = 3;
  applied = 2;
  healthy = false;
  entry_count = 1;
}

abbrev world : World Session
world = record { machine = record { durable = tables; pending = tables }; tape = []; times = [] }

-- An insertion that dies before its commit, and a publication that is prepared.
abbrev requests : List Request
requests =
    record { call = add manual 5; tape = done ∷ done ∷ done ∷ died ∷ []; times = [] }
    ∷ record { call = prepare; tape = []; times = [] }
    ∷ []

still_wanted : (run formats requests tables).desired ≡ tables.desired
unfolding run after execute add_claim_bounded validate_claim family_fits parse_claim prefix_or
    validate_claim_metadata is_none claim_source_pattern is_first is_second before_slash after_slash
    is_word is_letter is_allow_source starts_with with_defaults insert_claim refuse_over
    active_count is_active lives begin_tx commit_tx exec query audit mark_runtime_claims_degraded
    mark_claim_publication_dirty prepare_claim_publication publication pure fail continue ◌>>=◌ gets
    act_on act ask tick_on clock refuse_when all_in str_lt
still_wanted = refl

run_unchanged_example : (run formats requests tables).claims ≡ tables.claims
run_unchanged_example = run_unchanged formats requests tables still_wanted

applied_before : tables.applied ≤ tables.desired
applied_before = omega arith

run_ordered_example :
    (tables.desired ≤ (run formats requests tables).desired)
    × ((run formats requests tables).applied ≤ (run formats requests tables).desired)
run_ordered_example = run_ordered formats requests tables applied_before

added_ok : (add_claim_bounded formats manual 2 world).1 ≡ ok 2
unfolding add_claim_bounded validate_claim family_fits parse_claim prefix_or validate_claim_metadata
    is_none claim_source_pattern is_first is_second before_slash after_slash is_word is_letter
    is_allow_source starts_with with_defaults insert_claim refuse_over active_count is_active lives
    begin_tx commit_tx exec query audit mark_runtime_claims_degraded mark_claim_publication_dirty
    pure fail continue ◌>>=◌ gets act_on act ask tick_on clock refuse_when all_in str_lt
added_ok = refl

two_is_positive : 0 < 2
two_is_positive = omega arith

add_claim_bounded_limited_example :
    permanent_count (((add_claim_bounded formats manual 2 world).0).machine.durable).claims ≤ 2
add_claim_bounded_limited_example =
    add_claim_bounded_limited formats manual 2 2 world two_is_positive added_ok

effective_addresses_iff_example :
    (contains "10.0.0.5/32" (effective_addresses (active_claims formats 5 (manual ∷ [])) "ipv4")
      ≡ true)
    ↔ IsBlocked formats 5 "ipv4" "10.0.0.5/32" (manual ∷ [])
effective_addresses_iff_example =
    effective_addresses_iff formats 5 "ipv4" "10.0.0.5/32" (manual ∷ [])

parsed : parse_claim formats "10.0.0.6/32" ≡ some 6
unfolding parse_claim prefix_or
parsed = refl

blocked_ok : (add_block formats "10.0.0.6/32" "manual" "scan" "admin" none 2 world).1 ≡ ok 2
unfolding family_of new_claim add_parsed add_block add_claim_bounded validate_claim family_fits
    parse_claim prefix_or validate_claim_metadata is_none claim_source_pattern is_first is_second
    before_slash after_slash is_word is_letter is_allow_source starts_with with_defaults
    insert_claim refuse_over active_count is_active lives begin_tx commit_tx exec query audit
    mark_runtime_claims_degraded mark_claim_publication_dirty pure fail continue ◌>>=◌ gets act_on
    act ask tick_on clock refuse_when all_in str_lt
blocked_ok = refl

abbrev durable_after : World Session × Result ℕ → Db
durable_after end = (end.0).machine.durable

unexpired : IsUnexpired formats 5 none
unfolding IsUnexpired
unexpired = tt

add_block_blocks_example :
    contains (formats.masked 6) (
      effective_addresses
        (active_claims formats 5
          (durable_after
            (add_block formats "10.0.0.6/32" "manual" "scan" "admin" none 2 world)).claims)
        (family_of formats 6))
    ≡ true
add_block_blocks_example =
    add_block_blocks formats 5 "10.0.0.6/32" "manual" "scan" "admin" none 2 2 6 world parsed
      unexpired blocked_ok

loaded :
    load_cidrs formats (λ line. line) 1 ("10.0.0.6/32" ∷ "" ∷ "10.0.0.6/32" ∷ [])
    ≡ some ("10.0.0.6/32" ∷ [])
unfolding load_cidrs load_lines add_line add_prefix Countries.add_value limit_of contains
loaded = refl

abbrev loaded_list : List String
loaded_list = "10.0.0.6/32" ∷ []

load_cidrs_limited_example : (length loaded_list ≤ limit_of 1) × (unique loaded_list ≡ true)
load_cidrs_limited_example =
    load_cidrs_limited formats (λ line. line) 1 ("10.0.0.6/32" ∷ "" ∷ "10.0.0.6/32" ∷ [])
      ("10.0.0.6/32" ∷ []) loaded

tables_Numbered : Numbered tables
unfolding Numbered
tables_Numbered = (omega arith, tt)

abbrev later : World Session
later = (add_claim_bounded formats manual 2 world).0

removed_ok : (remove_claim formats 2 later).1 ≡ ok tt
unfolding add_claim_bounded validate_claim family_fits parse_claim prefix_or validate_claim_metadata
    is_none claim_source_pattern is_first is_second before_slash after_slash is_word is_letter
    is_allow_source starts_with with_defaults insert_claim refuse_over active_count is_active lives
    begin_tx commit_tx exec query audit mark_runtime_claims_degraded mark_claim_publication_dirty
    pure fail continue ◌>>=◌ gets act_on act ask tick_on clock refuse_when all_in str_lt
    remove_claim has_claim delete_claims without has_id or_no_rows
removed_ok = refl

add_claim_bounded-remove_claim_example :
    (((remove_claim formats 2 later).0).machine.durable).claims ≡ tables.claims
add_claim_bounded-remove_claim_example =
    add_claim_bounded-remove_claim formats manual 2 2 world later tables_Numbered added_ok refl
      removed_ok
