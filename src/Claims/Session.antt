-- ===== src/Claims/Session.antt =====
-- Transactions on the tables of claims: a session works on a copy, which a commit makes durable.
-- A transaction that is not committed leaves the tables as they were.
pub mod Steps
use nft_firewall_v.Prelude.{ℕ, ◌+◌, String, Bool, true, false, Option, none, some, List, [], ◌∷◌}
use nft_firewall_v.Effects.{Action, no_rows, refused, pure, fail, ◌>>=◌, ◌>>◌, gets, act, ask}
use nft_firewall_v.Claims.Types.{Formats, Claim, Db, active_count}

pub record Session : Type 0 where
  pub durable : Db
  pub pending : Db

unfoldable pub begin_tx : Action Session (Unit {0})
begin_tx = act (λ s. record s { pending = s.durable })

unfoldable pub commit_tx : Action Session (Unit {0})
commit_tx = act (λ s. record s { durable = s.pending })

-- A statement that writes.
unfoldable pub exec : (Db → Db) → Action Session (Unit {0})
exec f = act (λ s. record s { pending = f s.pending })

-- A statement that reads.
unfoldable pub query {ℓ} : {A : Type ℓ} → (Db → A) → Action Session A
query f = do ask; gets (λ s. f s.pending)

-- `INSERT INTO audit`, whose rows are not modelled.
unfoldable pub audit : Action Session (Unit {0})
audit = ask

module _ (f : Formats) where
  -- `markRuntimeClaimsDegradedTx`
  unfoldable pub mark_runtime_claims_degraded : ℕ → Action Session (Unit {0})
  mark_runtime_claims_degraded now = do
    count ← query (λ d. active_count f now d.claims)
    exec (λ d. record d { healthy = false; entry_count = count })

  -- `markClaimPublicationDirtyTx`
  unfoldable pub mark_claim_publication_dirty : ℕ → Action Session (Unit {0})
  mark_claim_publication_dirty now = do
    exec (λ d. record d { desired = d.desired + 1 })
    mark_runtime_claims_degraded now
