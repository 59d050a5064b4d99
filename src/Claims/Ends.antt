-- ===== src/Claims/Ends.antt =====
-- How each operation on claims may end: the tables as they were, or one committed change.
pub mod Published
use nft_firewall_v.Prelude.{
  ℕ, ◌+◌, String, Bool, true, false, not, ◌&&◌, ◌||◌, ◌≡◌, ◌∙◌, not-eq-false, refl, sym, subst,
  Option, none, some, List, [], ◌∷◌, if◌then◌else◌, ◌==◌, ltb, str_eq, length, ◌⊎◌, inl, inr,
}
use Prim.Native.String.{len}
use nft_firewall_v.Effects.{Action, no_rows, refused, pure, fail, ◌>>=◌, ◌>>◌, clock, refuse_when}
use nft_firewall_v.Effects.Logic.{
  Keeps, follows, refuses_then, pure_follows, fail_follows, if_follows, reads_then, reads_last,
  reads_refusal, moved,
}
use nft_firewall_v.Claims.Types.{
  Formats, Claim, Db, claim_source_pattern, is_allow_source, validate_claim_metadata,
  validate_claim, active_count,
}
use nft_firewall_v.Claims.Session.{Session, query}
use nft_firewall_v.Claims.Session.Steps.{
  degraded, dirtied, Durable, begin_then, exec_then, audit_then, clock_then, commit_then,
  query_then, commit_last, degrade_then, dirty_then,
}
use nft_firewall_v.Claims.Writes.{
  insert_claim, insert_restored, delete_claims, has_id, has_source, has_claim, source_of,
  or_no_rows, operator_may_remove, with_defaults, refuse_over, add_claim_bounded, remove_claim,
  remove_operator_claim, restore_claim,
}

-- The limit was kept when the active claims were counted.
unfoldable pub Fits : Formats → ℕ → ℕ → ℕ → Db → Type 0
Fits f max now more d = ltb 0 max ≡ true → ltb max (active_count f now d.claims + more) ≡ false

pub refuse_over_then {ℓ} :
    {B : Type ℓ} {K : B → Session → Type 0} (f : Formats) (P : Db → Type 0) (s : Session)
    → P s.durable
    → (max now more : ℕ) {k : Unit {0} → Action Session B}
    → (Fits f max now more s.pending → (u : Unit {0}) → Keeps s (Durable P) (k u) K)
    → Keeps s (Durable P) (refuse_over f max now more >>= k) K
unfolding refuse_over Fits
refuse_over_then f P s h max now more rest =
    follows {J = λ u s'. (s' ≡ s) × Fits f max now more s.pending}
      (if_follows (ltb 0 max)
        (λ limited. query_then P s h _ (λ n at.
          reads_last h (reads_refusal s _ _)
            (λ u no. (refl, λ k. subst (λ m. ltb max (m + more) ≡ false) at no))))
        (λ free. pure_follows tt (refl, λ k. cc)))
      (λ u s' (e, fits). moved e (rest fits u))

or_no_rows_then {ℓ} :
    {A : Type 0} {B : Type ℓ} {K : B → Session → Type 0} (P : Db → Type 0) (s : Session)
    → P s.durable
    → (o : Option A) {k : A → Action Session B}
    → ((a : A) → o ≡ some a → Keeps s (Durable P) (k a) K)
    → Keeps s (Durable P) (or_no_rows o >>= k) K
unfolding or_no_rows
or_no_rows_then P s h none rest =
    follows {J = λ a s'. ⊥} (fail_follows no_rows h) (λ a s'. elim [ ])
or_no_rows_then P s h (some a) rest =
    follows {J = λ b s'. (s' ≡ s) × (b ≡ a)} (pure_follows a (refl, refl))
      (λ b s' (e, at). moved e (rest b (λ i. some (sym at i))))

module _ (f : Formats) (P : Db → Type 0) (s : Session) (h : P s.durable) where
  pub add_claim_bounded_ends :
      (K : ℕ → Db → Type 0) (c : Claim) (max : ℕ)
      → ((now n : ℕ)
          → Fits f max now 1 s.durable
          → (P (dirtied n (insert_claim (with_defaults f now c) s.durable))
              × K
                  (s.durable.last_id + 1)
                  (dirtied n (insert_claim (with_defaults f now c) s.durable))))
      → Keeps s (Durable P) (add_claim_bounded f c max) (λ id s'. K id s'.durable)
  unfolding add_claim_bounded insert_claim
  add_claim_bounded_ends K c max final = refuses_then _ _ h (λ valid u1.
      refuses_then _ _ h (λ good u2. clock_then P s h (λ now. begin_then P s h (λ u3.
        refuse_over_then f P _ h max now 1 (λ fits u4. exec_then P _ h _ (λ u5.
          query_then P _ h _ (λ id at. audit_then P _ h (λ u6. dirty_then f P _ h now (λ n u7.
            commit_then P _ h (final now n fits).0 (λ u8. pure_follows id (
              subst (λ i. K i (dirtied n (insert_claim (with_defaults f now c) s.durable))) (sym at)
                (final now n fits).1)))))))))))

  pub remove_claim_ends :
      (K : Db → Type 0) (id : ℕ)
      → ((n : ℕ)
          → P (dirtied n (delete_claims (has_id id) s.durable))
            × K (dirtied n (delete_claims (has_id id) s.durable)))
      → Keeps s (Durable P) (remove_claim f id) (λ u s'. K s'.durable)
  unfolding remove_claim or_no_rows
  remove_claim_ends K id final = refuses_then _ _ h (λ positive u1. begin_then P s h (λ u2.
      query_then P _ h _ (λ found at. exec_then P _ h _ (λ u3.
        or_no_rows_then P _ h (if found then some tt else none) (λ t is. clock_then P _ h (λ now.
          audit_then P _ h
            (λ u4. dirty_then f P _ h now (λ n u5. commit_last P _ h (final n).0 (final n).1))))))))

  -- An operator's removal of a claim of the source `source`.
  pub remove_operator_claim_ends :
      (id : ℕ) (kind : String)
      → ((source : String) (n : ℕ)
          → source_of id s.durable.claims ≡ some source
          → operator_may_remove kind source ≡ true
          → P (dirtied n (delete_claims (has_id id) s.durable)))
      → Keeps s (Durable P) (remove_operator_claim f id kind) (λ u s'. P s'.durable)
  unfolding remove_operator_claim
  remove_operator_claim_ends id kind final = refuses_then _ _ h (λ positive u1.
      begin_then P s h (λ u2. query_then P _ h _ (λ found at.
        or_no_rows_then P _ h found (λ source is. refuses_then _ _ h (λ allowed u3.
          exec_then P _ h _ (λ u4. clock_then P _ h (λ now. audit_then P _ h (λ u5.
            dirty_then f P _ h now (λ n u6.
              let fine = final source n (sym at ∙ is) (not-eq-false _ allowed) in
              commit_last P _ h fine fine)))))))))

  pub restore_claim_ends :
      (c : Claim) (actor : String)
      → ((n : ℕ)
          → has_claim c.id s.durable.claims ≡ false
          → P (dirtied n (insert_restored c s.durable)))
      → Keeps s (Durable P) (restore_claim f c actor) (λ u s'. P s'.durable)
  unfolding restore_claim
  restore_claim_ends c actor final = refuses_then _ _ h (λ named u1. refuses_then _ _ h (λ valid u2.
      refuses_then _ _ h (λ good u3. begin_then P s h (λ u4. query_then P _ h _ (λ taken at.
        refuses_then _ _ h (λ free u5. exec_then P _ h _ (λ u6. clock_then P _ h (λ now.
          audit_then P _ h (λ u7.
            dirty_then f P _ h now
              (λ n u8. let fine = final n (sym at ∙ free) in commit_last P _ h fine fine))))))))))
