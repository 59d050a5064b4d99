-- ===== src/Claims/Retire/Ends.antt =====
-- What a retirement leaves of the tables.
use nft_firewall_v.Prelude.{
  ℕ, ◌+◌, String, Bool, false, ◌≡◌, ◌∙◌, refl, sym, subst, List, [], ◌∷◌, if◌then◌else◌, ltb, arith,
}
use nft_firewall_v.Effects.{pure}
use nft_firewall_v.Effects.Logic.{
  Keeps, follows, if_follows, pure_follows, weaken, reads_ask, reads_last,
}
use nft_firewall_v.Claims.Types.{Formats, Db}
use nft_firewall_v.Claims.Session.{Session, audit, mark_claim_publication_dirty}
use nft_firewall_v.Claims.Session.Steps.{
  dirtied, Durable, begin_then, exec_then, clock_then, commit_then, query_then, dirtied_keeps,
}
use nft_firewall_v.Claims.Writes.{delete_claims, has_source}
use nft_firewall_v.Claims.Publication.{count_of}
use nft_firewall_v.Claims.Revisions.{Moves, marked, without_none}
use nft_firewall_v.Claims.Retire.{remove_sources, remove_states, retire_inactive_integrations}

-- The revisions stay, and the claims with them where no row was met.
pub record Removed (d : Db) (n : ℕ) (d' : Db) : Type 0 where
  pub desired : d'.desired ≡ d.desired
  pub applied : d'.applied ≡ d.applied
  pub none_met : n ≡ 0 → d'.claims ≡ d.claims

Removed-both :
    (source : String) (d d' : Db) (rest : ℕ)
    → Removed (delete_claims (has_source source) d) rest d'
    → Removed d (count_of (has_source source) d.claims + rest) d'
unfolding delete_claims
Removed-both source d d' rest r = record {
  desired = r.desired;
  applied = r.applied;
  none_met = λ h.
      r.none_met (omega (arith, h)) ∙ without_none (has_source source) d.claims (omega (arith, h));
}

module _ (P : Db → Type 0) where
  remove_sources_keeps :
      (ss : List String) (s : Session)
      → P s.durable
      → Keeps s
          (Durable P)
          (remove_sources ss)
          (λ n s'. P s'.durable × Removed s.pending n s'.pending)
  unfolding remove_sources
  remove_sources_keeps [] s h =
      pure_follows 0 (h, record { desired = refl; applied = refl; none_met = λ e. refl })
  remove_sources_keeps (source ∷ ss) s h = query_then P s h _ (λ count at. exec_then P s h _ (λ u.
      follows (remove_sources_keeps ss _ h) (λ rest s' (kept, r). pure_follows (count + rest) (
        kept,
        subst (λ c. Removed s.pending (c + rest) s'.pending) (sym at)
            (Removed-both source s.pending s'.pending rest r),
      ))))

  remove_states_keeps :
      (names : List String) (s : Session)
      → P s.durable
      → Keeps s (Durable P) (remove_states names) (λ u s'. P s'.durable × (s'.pending ≡ s.pending))
  unfolding remove_states
  remove_states_keeps [] s h = pure_follows tt (h, refl)
  remove_states_keeps (name ∷ names) s h = exec_then P s h _ (λ u. remove_states_keeps names s h)

-- A retirement that met rows raises the revision, and one that met none leaves the claims.
raised : (d d' : Db) (removed n : ℕ) → Removed d removed d' → Moves d (dirtied n d')
raised d d' removed n r = marked d (dirtied n d') (λ i. r.desired i + 1) r.applied

quiet : (d d' : Db) (removed : ℕ) → Removed d removed d' → ltb 0 removed ≡ false → Moves d d'
quiet d d' removed r h = record {
  forward = omega (arith, r.desired);
  same = λ e. r.none_met (ground (arith, h));
  bounded = λ h. omega (arith, r.desired, r.applied, h);
}

module _ (f : Formats) (d : Db) where
  audit_or :
      (b : Bool) (s : Session)
      → Moves d s.durable × Moves d s.pending
      → Keeps s
          (Durable (Moves d))
          (if b then audit else pure tt)
          (λ u s'. Moves d s'.durable × Moves d s'.pending)
  unfolding audit
  audit_or b s both =
      if_follows b (λ y. reads_last both.0 (reads_ask s) (λ u k. both)) (λ n. pure_follows tt both)

  dirty_or :
      (removed now : ℕ) (s : Session)
      → Moves d s.durable
      → Removed d removed s.pending
      → Keeps s
          (Durable (Moves d))
          (if ltb 0 removed then mark_claim_publication_dirty f now else pure tt)
          (λ u s'. Moves d s'.durable × Moves d s'.pending)
  dirty_or removed now s kept r =
      if_follows (ltb 0 removed)
        (λ met.
          weaken (dirtied_keeps f (Moves d) s kept now)
            (λ u s' (n, e).
              subst (λ q. Moves d q.durable × Moves d q.pending) (sym e)
                (kept, raised d s.pending removed n r))
            (λ e s' k. k) (λ s' k. k))
        (λ none_met. pure_follows tt (kept, quiet d s.pending removed r none_met))

pub retire_inactive_integrations_ends :
    (f : Formats) (s : Session) (active : String → Bool) (names : List String)
    → Moves s.durable s.durable
    → Keeps s
        (Durable (Moves s.durable))
        (retire_inactive_integrations f active names)
        (λ n s'. Moves s.durable s'.durable)
unfolding retire_inactive_integrations
retire_inactive_integrations_ends f s active names h =
    let P : Db → Type 0 = Moves s.durable in
    begin_then P s h (λ u1. query_then P _ h _ (λ sources at.
      follows (remove_sources_keeps P sources _ h) (λ removed s2 (kept, r).
        query_then P s2 kept _ (λ states at2.
          follows (remove_states_keeps P states s2 kept) (λ u2 s3 (kept3, same).
            clock_then P s3 kept3 (λ now.
              follows
                (dirty_or f s.durable removed now s3 kept3
                  (subst (Removed s.durable removed) (sym same) r))
                (λ u3 s4 both. follows (audit_or f s.durable _ s4 both) (λ u4 s5 last.
                  commit_then P s5 last.0 last.1 (λ u5. pure_follows _ last.1)))))))))
