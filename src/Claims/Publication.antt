-- ===== src/Claims/Publication.antt =====
-- internal/state/store.go: the purge of expired claims, and the revisions of what is published.
use nft_firewall_v.Prelude.{
  ℕ, ◌+◌, String, Bool, true, false, not, Option, none, some, List, [], ◌∷◌, if◌then◌else◌, ◌==◌,
  ltb, str_lt,
}
use nft_firewall_v.Effects.{Action, pure, ◌>>=◌, ◌>>◌, clock, ask, gets, refuse_when}
use nft_firewall_v.Claims.Types.{Formats, Claim, Db}
use nft_firewall_v.Claims.Session.{
  Session, begin_tx, commit_tx, exec, query, audit, mark_runtime_claims_degraded,
  mark_claim_publication_dirty,
}
use nft_firewall_v.Claims.Writes.{delete_claims}

unfoldable pub count_of : (Claim → Bool) → List Claim → ℕ
count_of test [] = 0
count_of test (c ∷ cs) = let rest = count_of test cs in if test c then 1 + rest else rest

-- `ClaimPublication`
pub record ClaimPublication : Type 0 where
  pub desired_revision : ℕ
  pub applied_revision : ℕ

unfoldable pub publication : Db → ClaimPublication
publication d = record { desired_revision = d.desired; applied_revision = d.applied }

-- `ClaimPublicationState`
unfoldable pub claim_publication_state : Action Session ClaimPublication
unfolding publication
claim_publication_state = do
  ask
  p ← gets (λ s. publication s.durable)
  refuse_when (ltb p.desired_revision p.applied_revision)
      "runtime claim publication revision is invalid"
  pure p

-- The UPDATE of `MarkClaimsPublished`, which only meets the revision that it names.
unfoldable pub published : ℕ → Db → Db
published revision d = if d.desired == revision then record d { applied = revision } else d

-- `MarkClaimsPublished`
unfoldable pub mark_claims_published : ℕ → ℕ → Action Session (Unit {0})
unfolding published
mark_claims_published revision count = do
  begin_tx
  meets ← query (λ d. d.desired == revision)
  exec (published revision)
  refuse_when (not meets) "runtime claims changed during publication"
  exec (λ d. record d { healthy = true; entry_count = count })
  commit_tx

module _ (f : Formats) where
  -- `expires_at IS NOT NULL AND expires_at<=?`
  unfoldable pub expired : ℕ → Option String → Bool
  expired now none = false
  expired now (some t) = not (str_lt (f.time_text now) t)

  unfoldable pub is_expired : ℕ → Claim → Bool
  unfolding expired
  is_expired now c = expired now c.expires_at

  -- `PurgeExpiredClaims`
  unfoldable pub purge_expired_claims : ℕ → Action Session ℕ
  unfolding delete_claims is_expired count_of
  purge_expired_claims now = do
    begin_tx
    count ← query (λ d. count_of (is_expired now) d.claims)
    exec (delete_claims (is_expired now))
    if ltb 0 count then (audit >> mark_claim_publication_dirty f now) else pure tt
    commit_tx
    pure count

  -- `PrepareClaimPublication`
  unfoldable pub prepare_claim_publication : Action Session ℕ
  unfolding publication
  prepare_claim_publication = do
    begin_tx
    p ← query publication
    refuse_when (ltb p.desired_revision p.applied_revision)
        "runtime claim publication revision is invalid"
    now ← clock
    let current : Bool = p.desired_revision == p.applied_revision
    if current then mark_claim_publication_dirty f now else mark_runtime_claims_degraded f now
    commit_tx
    pure (if current then p.desired_revision + 1 else p.desired_revision)
