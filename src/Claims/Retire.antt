-- ===== src/Claims/Retire.antt =====
-- internal/state/store.go: the retirement of the integrations that are no longer configured.
pub mod Ends
use nft_firewall_v.Prelude.{
  ℕ, ◌+◌, String, Bool, true, false, not, ◌&&◌, ◌||◌, List, [], ◌∷◌, if◌then◌else◌, ◌==◌, ltb, leb,
  str_eq, codes, length,
}
use nft_firewall_v.Effects.{Action, pure, ◌>>=◌, ◌>>◌, clock}
use nft_firewall_v.Claims.Types.{Formats, Claim, Db, starts_with}
use nft_firewall_v.Claims.Session.{
  Session, begin_tx, commit_tx, exec, query, audit, mark_claim_publication_dirty,
}
use nft_firewall_v.Claims.Writes.{delete_claims, has_source}
use nft_firewall_v.Claims.Replace.{contains, sort_strings}
use nft_firewall_v.Claims.Publication.{count_of}

unfoldable pub fold : ℕ → ℕ
fold c = if leb b'A' c && leb c b'Z' then c + 32 else c

-- `LIKE` on a pattern of letters, a slash and a final `%`, which does not tell the case of letters.
unfoldable pub is_like : List ℕ → List ℕ → Bool
unfolding fold
is_like [] cs = true
is_like (p ∷ ps) [] = false
is_like (p ∷ ps) (c ∷ cs) = p == fold c && is_like ps cs

unfoldable pub is_integration_source : String → Bool
unfolding is_like
is_integration_source s =
    is_like (codes "threatfeed/") (codes s) || is_like (codes "geo/") (codes s)

-- The distinct sources of integrations that are not active.
unfoldable pub inactive_sources : (String → Bool) → List Claim → List String
unfolding is_integration_source contains
inactive_sources active [] = []
inactive_sources active (c ∷ cs) =
    let rest = inactive_sources active cs in
    if is_integration_source c.source && (not (active c.source) && not (contains c.source rest))
    then c.source ∷ rest
    else rest

unfoldable pub is_managed : String → Bool
unfolding starts_with
is_managed name =
    str_eq name "docker"
    || (starts_with (codes "wireguard/") (codes name)
        || (starts_with (codes "threatfeed/") (codes name)
            || starts_with (codes "geo/") (codes name)))

unfoldable pub inactive_states : (String → Bool) → List String → List String
unfolding is_managed
inactive_states active [] = []
inactive_states active (name ∷ names) =
    let rest = inactive_states active names in
    if is_managed name && not (active name) then name ∷ rest else rest

-- The loop of the DELETEs on claims, with the rows that they met.
unfoldable pub remove_sources : List String → Action Session ℕ
unfolding delete_claims has_source count_of
remove_sources [] = pure 0
remove_sources (s ∷ ss) = do
  count ← query (λ d. count_of (has_source s) d.claims)
  exec (delete_claims (has_source s))
  rest ← remove_sources ss
  pure (count + rest)

-- The loop of the DELETEs on `integration_state`; the rows of integrations are not in the tables
-- here, and 'runtime/claims' is none of them.
unfoldable pub remove_states : List String → Action Session (Unit {0})
remove_states [] = pure tt
remove_states (name ∷ names) = do exec (λ d. d); remove_states names

-- `RetireInactiveIntegrations`, with the names that stand in `integration_state`.
unfoldable pub retire_inactive_integrations :
    Formats → (String → Bool) → List String → Action Session ℕ
unfolding inactive_sources inactive_states remove_sources remove_states sort_strings
retire_inactive_integrations f active names = do
  begin_tx
  sources ← query (λ d. sort_strings (inactive_sources active d.claims))
  removed ← remove_sources sources
  states ← query (λ d. inactive_states active names)
  remove_states states
  now ← clock
  if ltb 0 removed then mark_claim_publication_dirty f now else pure tt
  if ltb 0 (length sources) || ltb 0 (length states) then audit else pure tt
  commit_tx
  pure removed
