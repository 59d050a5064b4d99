-- ===== src/Claims/Replace.antt =====
-- internal/state/store.go: the claims of one integration, the purge, and the publication.
use Prim.Native.String.{len}
use nft_firewall_v.Prelude.{
  ℕ, String, Bool, false, not, ◌||◌, Option, none, some, List, [], ◌∷◌, ◌++◌, if◌then◌else◌, ◌==◌,
  ltb, str_eq, str_lt, length,
}
use nft_firewall_v.Effects.{Action, refused, pure, fail, ◌>>=◌, ◌>>◌, clock, refuse_when}
use nft_firewall_v.Claims.Types.{
  Formats, Claim, Db, claim_source_pattern, is_allow_source, parse_claim,
}
use nft_firewall_v.Claims.Session.{
  Session, begin_tx, commit_tx, exec, audit, mark_claim_publication_dirty,
}
use nft_firewall_v.Claims.Writes.{insert_claim, delete_claims, has_source, refuse_over}

unfoldable pub contains : String → List String → Bool
contains s [] = false
contains s (t ∷ ts) = str_eq t s || contains s ts

unfoldable pub insert_text : String → List String → List String
insert_text s [] = s ∷ []
insert_text s (t ∷ ts) = if str_lt t s then t ∷ insert_text s ts else s ∷ t ∷ ts

-- `sort.Strings`
unfoldable pub sort_strings : List String → List String
unfolding insert_text
sort_strings [] = []
sort_strings (s ∷ ss) = insert_text s (sort_strings ss)

unfoldable pub insert_each : List Claim → Db → Db
unfolding insert_claim
insert_each [] d = d
insert_each (c ∷ cs) d = insert_each cs (insert_claim c d)

module _ (f : Formats) where
  -- One round of the loop over the addresses; the first list is `canonical`.
  unfoldable pub add_value : List String → Option f.Prefix → Option (List String)
  unfolding contains
  add_value seen none = none
  add_value seen (some p) =
      if f.bits p == 0
      then none
      else if contains (f.masked p) seen
      then some seen
      else some (seen ++ (f.masked p ∷ []))

  -- The loop; none where it returns an error.
  unfoldable pub canonical : List String → List String → Option (List String)
  unfolding add_value
  canonical seen [] = some seen
  canonical seen (raw ∷ rest) = elim (add_value seen (parse_claim f raw)) [
    | none ↦ none
    | some next ↦ canonical next rest
  ]

  unfoldable pub first_is4 : Option f.Prefix → Bool
  first_is4 none = false
  first_is4 (some p) = f.is4 (f.addr p)

  unfoldable pub claim_of : String → String → String → ℕ → String → Claim
  unfolding first_is4
  claim_of source reason actor now address = record {
    id = 0;
    address = address;
    family = if first_is4 (f.parse_prefix address) then "ipv4" else "ipv6";
    source = source;
    reason = reason;
    actor = actor;
    created_at = f.time_text now;
    expires_at = none;
  }

  unfoldable pub claims_of : String → String → String → ℕ → List String → List Claim
  claims_of source reason actor now [] = []
  claims_of source reason actor now (a ∷ as') =
      claim_of source reason actor now a ∷ claims_of source reason actor now as'

  unfoldable pub sorted_or_refused : Option (List String) → Action Session (List String)
  unfolding sort_strings
  sorted_or_refused none = fail (refused "invalid replacement claim")
  sorted_or_refused (some cs) = pure (sort_strings cs)

  -- `ReplaceSourceClaimsBounded`
  unfoldable pub replace_source_claims_bounded :
      String → String → String → List String → ℕ → Action Session ℕ
  unfolding canonical sorted_or_refused delete_claims has_source refuse_over insert_each claims_of
  replace_source_claims_bounded source reason actor addresses max = do
    refuse_when (str_eq source "" || str_eq actor "") "claim source and actor are required"
    refuse_when (ltb 129 (len source) || (ltb 128 (len actor) || ltb 1024 (len reason)))
        "claim source, actor, or reason exceeds its size limit"
    refuse_when (not (claim_source_pattern source) || is_allow_source source)
        "integration claim source is invalid or reserved for temporary access"
    values ← sorted_or_refused (canonical [] addresses)
    begin_tx
    exec (delete_claims (has_source source))
    counted ← clock
    refuse_over f max counted (length values)
    now ← clock
    exec (
        insert_each
          (claims_of source (if str_eq reason "" then "integration" else reason) actor now values))
    audit
    mark_claim_publication_dirty f now
    commit_tx
    pure (length values)
