-- ===== src/Claims/Types.antt =====
-- The rows of claims, their checks, and what the kernel was last given.
use Prim.Native.String.{len}
use nft_firewall_v.Prelude.{
  ℕ, ◌+◌, String, Bool, true, false, not, ◌&&◌, ◌||◌, Option, none, some, List, [], ◌∷◌,
  if◌then◌else◌, ◌==◌, ltb, leb, str_eq, str_lt, codes, all_in, is_alnum, length,
}

-- What is used of `net/netip`, and `Format(time.RFC3339Nano)` on a time in UTC.
pub record Formats : Type 1 where
  pub Addr : Type 0
  pub Prefix : Type 0
  pub parse_prefix : String → Option Prefix
  pub parse_addr : String → Option Addr
  pub host_prefix : Addr → Prefix
  pub bits : Prefix → ℕ
  pub addr : Prefix → Addr
  pub is4 : Addr → Bool
  pub is6 : Addr → Bool
  pub masked : Prefix → String
  pub time_text : ℕ → String

-- A row. Times are the texts that the database holds and compares.
pub record Claim : Type 0 where
  pub id : ℕ
  pub address : String
  pub family : String
  pub source : String
  pub reason : String
  pub actor : String
  pub created_at : String
  pub expires_at : Option String

-- The tables: claims in the order of their insertion, the last id that was given, the row of
-- `runtime_claim_publication`, and the row 'runtime/claims' of `integration_state`.
pub record Db : Type 0 where
  pub claims : List Claim
  pub last_id : ℕ
  pub desired : ℕ
  pub applied : ℕ
  pub healthy : Bool
  pub entry_count : ℕ

unfoldable pub is_word : ℕ → Bool
is_word c = is_alnum c || (c == b'_' || (c == b'.' || c == b'-'))

unfoldable pub is_letter : ℕ → Bool
is_letter c = (leb b'A' c && leb c b'Z') || (leb b'a' c && leb c b'z')

unfoldable pub before_slash : List ℕ → List ℕ
before_slash [] = []
before_slash (c ∷ cs) = if c == b'/' then [] else c ∷ before_slash cs

unfoldable pub after_slash : List ℕ → Option (List ℕ)
after_slash [] = none
after_slash (c ∷ cs) = if c == b'/' then some cs else after_slash cs

-- `[a-zA-Z][a-zA-Z0-9_.-]{0,63}`
unfoldable pub is_first : List ℕ → Bool
unfolding is_word is_letter
is_first [] = false
is_first (c ∷ cs) = is_letter c && (leb (length cs) 63 && all_in is_word cs)

-- `(/[a-zA-Z0-9_.-]{1,64})?`
unfoldable pub is_second : Option (List ℕ) → Bool
unfolding is_word
is_second none = true
is_second (some cs) = ltb 0 (length cs) && (leb (length cs) 64 && all_in is_word cs)

-- `claimSourcePattern`
unfoldable pub claim_source_pattern : String → Bool
unfolding is_first is_second before_slash after_slash
claim_source_pattern s = is_first (before_slash (codes s)) && is_second (after_slash (codes s))

unfoldable pub starts_with : List ℕ → List ℕ → Bool
starts_with [] cs = true
starts_with (p ∷ ps) [] = false
starts_with (p ∷ ps) (c ∷ cs) = p == c && starts_with ps cs

-- `isAllowSource`
unfoldable pub is_allow_source : String → Bool
unfolding starts_with
is_allow_source s = str_eq s "allow" || starts_with (codes "allow/") (codes s)

unfoldable pub is_none : Option String → Bool
is_none none = true
is_none (some t) = false

-- `validateClaimMetadata`
unfoldable pub validate_claim_metadata : Claim → Bool
unfolding is_none
validate_claim_metadata c =
    claim_source_pattern c.source
    && (not (str_eq c.actor "")
        && (leb (len c.actor) 128
            && (leb (len c.reason) 1024 && not (is_allow_source c.source && is_none c.expires_at))))

module _ (f : Formats) where
  unfoldable pub prefix_or : Option f.Prefix → Option f.Addr → Option f.Prefix
  prefix_or (some p) a = some p
  prefix_or none (some a) = some (f.host_prefix a)
  prefix_or none none = none

  -- A prefix, or the prefix of one address.
  unfoldable pub parse_claim : String → Option f.Prefix
  unfolding prefix_or
  parse_claim raw = prefix_or (f.parse_prefix raw) (f.parse_addr raw)

  unfoldable pub family_fits : String → Option f.Prefix → Bool
  family_fits family none = false
  family_fits family (some p) =
      not (f.bits p == 0)
      && (not (str_eq family "ipv4" && not (f.is4 (f.addr p)))
          && not (str_eq family "ipv6" && not (f.is6 (f.addr p))))

  -- `ValidateClaim`
  unfoldable pub validate_claim : String → String → Bool
  unfolding family_fits parse_claim
  validate_claim address family =
      (str_eq family "ipv4" || str_eq family "ipv6") && family_fits family (parse_claim address)

  unfoldable pub lives : ℕ → Option String → Bool
  lives now none = true
  lives now (some t) = str_lt (f.time_text now) t

  -- `expires_at IS NULL OR expires_at>?`
  unfoldable pub is_active : ℕ → Claim → Bool
  unfolding lives
  is_active now c = lives now c.expires_at

  -- `SELECT COUNT(*) FROM claims WHERE …`
  unfoldable pub active_count : ℕ → List Claim → ℕ
  active_count now [] = 0
  active_count now (c ∷ cs) =
      let rest = active_count now cs in if is_active now c then 1 + rest else rest
