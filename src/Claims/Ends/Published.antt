-- ===== src/Claims/Ends/Published.antt =====
-- The same for the claims of an integration, the purge and the publication.
use nft_firewall_v.Prelude.{
  ℕ, String, true, false, ◌≡◌, ◌∙◌, not-eq-false, refl, sym, subst, Option, none, some, List, [],
  if◌then◌else◌, ◌==◌, ltb, str_eq, arith, length, ==_iff,
}
use nft_firewall_v.Effects.{Action, ◌>>=◌}
use nft_firewall_v.Effects.Logic.{
  Keeps, follows, refuses_then, pure_follows, fail_follows, if_follows, moved, weaken,
}
use nft_firewall_v.Claims.Types.{Formats, Db}
use nft_firewall_v.Claims.Session.{Session}
use nft_firewall_v.Claims.Session.Steps.{
  degraded, dirtied, Durable, begin_then, exec_then, audit_then, clock_then, commit_then,
  query_then, commit_last, dirty_then, degraded_keeps, dirtied_keeps,
}
use nft_firewall_v.Claims.Writes.{delete_claims, has_source}
use nft_firewall_v.Claims.Replace.{
  canonical, sort_strings, sorted_or_refused, insert_each, claims_of, replace_source_claims_bounded,
}
use nft_firewall_v.Claims.Publication.{
  count_of, published, mark_claims_published, is_expired, purge_expired_claims,
  prepare_claim_publication,
}
use nft_firewall_v.Claims.Ends.{Fits, refuse_over_then}

-- The rows after a replacement.
abbrev pub replaced : Formats → String → String → String → ℕ → List String → Db → Db
replaced f source reason actor now values d =
    insert_each
      (claims_of f source (if str_eq reason "" then "integration" else reason) actor now values)
      (delete_claims (has_source source) d)

sorted_or_refused_then {ℓ} :
    {B : Type ℓ} {K : B → Session → Type 0} (f : Formats) (P : Db → Type 0) (s : Session)
    → P s.durable
    → (o : Option (List String)) (k : List String → Action Session B)
    → ((values : List String) → o ≡ some values → Keeps s (Durable P) (k (sort_strings values)) K)
    → Keeps s (Durable P) (sorted_or_refused f o >>= k) K
unfolding sorted_or_refused
sorted_or_refused_then f P s h none k rest =
    follows {J = λ a s'. ⊥} (fail_follows _ h) (λ a s'. elim [ ])
sorted_or_refused_then {K = K} f P s h (some values) k rest =
    follows {J = λ b s'. (s' ≡ s) × (b ≡ sort_strings values)} (pure_follows _ (refl, refl))
      (λ b s' (e, at).
        moved e (subst (λ v. Keeps s (Durable P) (k v) K) (sym at) (rest values refl)))

published_met :
    (revision : ℕ) (d : Db)
    → (d.desired == revision) ≡ true
    → published revision d ≡ record d { applied = revision }
unfolding published
published_met revision d h = rw h

zero_of : (n : ℕ) → ltb 0 n ≡ false → n ≡ 0
zero_of n h = ground arith

module _ (f : Formats) (P : Db → Type 0) (s : Session) (h : P s.durable) where
  pub replace_source_claims_bounded_ends :
      (K : Db → Type 0) (source reason actor : String) (addresses : List String) (max : ℕ)
      → ((values : List String) (counted now n : ℕ)
          → canonical f [] addresses ≡ some values
          → Fits f max counted
              (length (sort_strings values))
              (delete_claims (has_source source) s.durable)
          → P (dirtied n (replaced f source reason actor now (sort_strings values) s.durable))
            × K (dirtied n (replaced f source reason actor now (sort_strings values) s.durable)))
      → Keeps s
          (Durable P)
          (replace_source_claims_bounded f source reason actor addresses max)
          (λ m s'. K s'.durable)
  unfolding replace_source_claims_bounded
  replace_source_claims_bounded_ends K source reason actor addresses max final =
      refuses_then _ _ h (λ named u1. refuses_then _ _ h (λ short u2. refuses_then _ _ h (λ good u3.
        sorted_or_refused_then f P s h (canonical f [] addresses) _ (λ values is.
          begin_then P s h (λ u4. exec_then P _ h _ (λ u5. clock_then P _ h (λ counted.
            refuse_over_then f P _ h max counted _ (λ fits u6. clock_then P _ h (λ now.
              exec_then P _ h _ (λ u7. audit_then P _ h (λ u8. dirty_then f P _ h now (λ n u9.
                let fine = final values counted now n is fits in
                commit_then P _ h fine.0 (λ u10. pure_follows _ fine.1)))))))))))))

  pub mark_claims_published_ends :
      (K : Db → Type 0) (revision count : ℕ)
      → (s.durable.desired ≡ revision
          → P (record s.durable { applied = revision; healthy = true; entry_count = count })
            × K (record s.durable { applied = revision; healthy = true; entry_count = count }))
      → Keeps s (Durable P) (mark_claims_published revision count) (λ u s'. K s'.durable)
  unfolding mark_claims_published
  mark_claims_published_ends K revision count final = begin_then P s h (λ u1.
      query_then P _ h _ (λ meets at. exec_then P _ h _ (λ u2. refuses_then _ _ h (λ met u3.
        exec_then P _ h _ (λ u4.
          moved
            (λ i. record s {
              pending = record (published_met revision s.durable (sym at ∙ not-eq-false _ met) i) {
                healthy = true;
                entry_count = count;
              };
            })
            (let fine = final ((==_iff _ _).0 (sym at ∙ not-eq-false _ met)) in
              commit_last P _ h fine.0 fine.1))))))

  pub purge_expired_claims_ends :
      (now : ℕ)
      → (count_of (is_expired f now) s.durable.claims ≡ 0
          → P (delete_claims (is_expired f now) s.durable))
      → ((n : ℕ) → P (dirtied n (delete_claims (is_expired f now) s.durable)))
      → Keeps s (Durable P) (purge_expired_claims f now) (λ u s'. P s'.durable)
  unfolding purge_expired_claims
  purge_expired_claims_ends now quiet changed = begin_then P s h (λ u1.
      query_then P _ h _ (λ count at. exec_then P _ h _ (λ u2.
        follows {J = λ u s'. P s'.durable × P s'.pending}
          (if_follows (ltb 0 count)
            (λ some_of. audit_then P _ h (λ u3.
              weaken (dirtied_keeps f P _ h now)
                (λ u s' (n, e). subst (λ q. P q.durable × P q.pending) (sym e) (h, changed n))
                (λ e s' k. k) (λ s' k. k)))
            (λ none_of. pure_follows tt (h, quiet (sym at ∙ zero_of count none_of))))
          (λ u s' both. commit_then P s' both.0 both.1 (λ u4. pure_follows _ both.1)))))

  pub prepare_claim_publication_ends :
      ((n : ℕ) → P (degraded n s.durable))
      → ((n : ℕ) → P (dirtied n s.durable))
      → Keeps s (Durable P) (prepare_claim_publication f) (λ r s'. P s'.durable)
  unfolding prepare_claim_publication
  prepare_claim_publication_ends same changed = begin_then P s h (λ u1. query_then P _ h _ (λ p at.
      refuses_then _ _ h (λ valid u2. clock_then P _ h (λ now.
        follows {J = λ u s'. P s'.durable × P s'.pending}
          (if_follows (p.desired_revision == p.applied_revision)
            (λ current.
              weaken (dirtied_keeps f P _ h now)
                (λ u s' (n, e). subst (λ q. P q.durable × P q.pending) (sym e) (h, changed n))
                (λ e s' k. k) (λ s' k. k))
            (λ behind.
              weaken (degraded_keeps f P _ h now)
                (λ u s' (n, e). subst (λ q. P q.durable × P q.pending) (sym e) (h, same n))
                (λ e s' k. k) (λ s' k. k)))
          (λ u s' both. commit_then P s' both.0 both.1 (λ u4. pure_follows _ both.1))))))
