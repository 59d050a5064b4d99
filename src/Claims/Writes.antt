-- ===== src/Claims/Writes.antt =====
-- internal/state/store.go: the operations on claims and on their publication.
use nft_firewall_v.Prelude.{
  ℕ, ◌+◌, String, Bool, false, not, ◌&&◌, ◌||◌, Option, none, some, List, [], ◌∷◌, ◌++◌,
  if◌then◌else◌, ◌==◌, ltb, str_eq,
}
use nft_firewall_v.Effects.{Action, no_rows, pure, fail, ◌>>=◌, ◌>>◌, clock, refuse_when}
use nft_firewall_v.Claims.Types.{
  Formats, Claim, Db, is_allow_source, validate_claim_metadata, validate_claim, active_count,
}
use nft_firewall_v.Claims.Session.{
  Session, begin_tx, commit_tx, exec, query, audit, mark_claim_publication_dirty,
}

unfoldable pub has_claim : ℕ → List Claim → Bool
has_claim id [] = false
has_claim id (c ∷ cs) = c.id == id || has_claim id cs

-- The rows that a DELETE leaves.
unfoldable pub without : (Claim → Bool) → List Claim → List Claim
without test [] = []
without test (c ∷ cs) = let rest = without test cs in if test c then rest else c ∷ rest

unfoldable pub insert_claim : Claim → Db → Db
insert_claim c d = record d {
  claims = d.claims ++ ((record c { id = d.last_id + 1 }) ∷ []);
  last_id = d.last_id + 1;
}

unfoldable pub delete_claims : (Claim → Bool) → Db → Db
unfolding without
delete_claims test d = record d { claims = without test d.claims }

unfoldable pub insert_restored : Claim → Db → Db
insert_restored c d = record d {
  claims = d.claims ++ (c ∷ []);
  last_id = if ltb d.last_id c.id then c.id else d.last_id;
}

unfoldable pub source_of : ℕ → List Claim → Option String
source_of id [] = none
source_of id (c ∷ cs) = if c.id == id then some c.source else source_of id cs

unfoldable pub or_no_rows {ℓ} : {A : Type ℓ} → Option A → Action Session A
or_no_rows none = fail no_rows
or_no_rows (some a) = pure a

unfoldable pub has_id : ℕ → Claim → Bool
has_id id c = c.id == id

unfoldable pub has_source : String → Claim → Bool
has_source source c = str_eq c.source source

-- The kinds of claim that an operator may remove.
unfoldable pub operator_may_remove : String → String → Bool
operator_may_remove kind source =
    (str_eq kind "block" && str_eq source "manual")
    || (str_eq kind "allow" && is_allow_source source)

module _ (f : Formats) where
  unfoldable pub with_defaults : ℕ → Claim → Claim
  with_defaults now c = record c {
    reason = if str_eq c.reason "" then "unspecified" else c.reason;
    created_at = if str_eq c.created_at "" then f.time_text now else c.created_at;
  }

  unfoldable pub refuse_over : ℕ → ℕ → ℕ → Action Session (Unit {0})
  refuse_over max now more =
      if ltb 0 max
      then (query (λ d. active_count f now d.claims) >>= λ count.
          refuse_when (ltb max (count + more)) "claim limit reached")
      else pure tt

  -- `AddClaimBounded`. A creation time that is not given is an empty text.
  unfoldable pub add_claim_bounded : Claim → ℕ → Action Session ℕ
  unfolding insert_claim with_defaults refuse_over
  add_claim_bounded c max = do
    refuse_when (not (validate_claim f c.address c.family)) "claim address is invalid"
    refuse_when (not (validate_claim_metadata c)) "claim metadata is invalid"
    now ← clock
    begin_tx
    refuse_over max now 1
    exec (insert_claim (with_defaults now c))
    id ← query (λ d. d.last_id)
    audit
    mark_claim_publication_dirty f now
    commit_tx
    pure id

  -- `RemoveClaim`
  unfoldable pub remove_claim : ℕ → Action Session (Unit {0})
  unfolding has_id delete_claims has_claim
  remove_claim id = do
    refuse_when (id == 0) "claim id must be positive"
    begin_tx
    found ← query (λ d. has_claim id d.claims)
    exec (delete_claims (has_id id))
    or_no_rows (if found then some tt else none)
    now ← clock
    audit
    mark_claim_publication_dirty f now
    commit_tx

  -- `RemoveOperatorClaim`
  unfoldable pub remove_operator_claim : ℕ → String → Action Session (Unit {0})
  unfolding has_id delete_claims source_of operator_may_remove or_no_rows
  remove_operator_claim id kind = do
    refuse_when (id == 0) "claim id must be positive"
    begin_tx
    found ← query (λ d. source_of id d.claims)
    source ← or_no_rows found
    refuse_when (not (operator_may_remove kind source)) "claim cannot be removed"
    exec (delete_claims (has_id id))
    now ← clock
    audit
    mark_claim_publication_dirty f now
    commit_tx

  -- `RestoreClaim`: an id that is taken fails the INSERT.
  unfoldable pub restore_claim : Claim → String → Action Session (Unit {0})
  unfolding insert_restored has_claim
  restore_claim c actor = do
    refuse_when (c.id == 0 || str_eq actor "") "restored claim id and actor are required"
    refuse_when (not (validate_claim f c.address c.family)) "claim address is invalid"
    refuse_when (not (validate_claim_metadata c)) "claim metadata is invalid"
    begin_tx
    taken ← query (λ d. has_claim c.id d.claims)
    refuse_when taken "UNIQUE constraint failed"
    exec (insert_restored c)
    now ← clock
    audit
    mark_claim_publication_dirty f now
    commit_tx
