-- ===== src/Claims/Revisions/History.antt =====
-- Every operation moves the revisions, and any sequence of them.
use nft_firewall_v.Prelude.{
  ℕ, ◌+◌, ◌≤◌, String, true, ◌≡◌, refl, List, [], ◌∷◌, if◌then◌else◌, str_eq, arith,
}
use nft_firewall_v.Effects.{Action, pure, ◌>>=◌}
use nft_firewall_v.Effects.Logic.{Keeps, follows, weaken, pure_follows, stays}
use nft_firewall_v.Claims.Types.{Formats, Db}
use nft_firewall_v.Claims.Session.{Session}
use nft_firewall_v.Claims.Session.Steps.{dirtied, Durable}
use nft_firewall_v.Claims.Writes.{insert_claim, insert_restored, delete_claims, has_source}
use nft_firewall_v.Claims.Replace.{claims_of}
use nft_firewall_v.Claims.Publication.{is_expired}
use nft_firewall_v.Claims.Ends.{
  add_claim_bounded_ends, remove_claim_ends, remove_operator_claim_ends, restore_claim_ends,
}
use nft_firewall_v.Claims.Ends.Published.{
  replaced, replace_source_claims_bounded_ends, mark_claims_published_ends,
  purge_expired_claims_ends, prepare_claim_publication_ends,
}
use nft_firewall_v.Claims.Retire.Ends.{retire_inactive_integrations_ends}
use nft_firewall_v.Claims.Revisions.{
  Moves, stands, Moves-trans, marked, insert_each-desired, without_none, Call, add, remove,
  remove_operator, restore, replace, purge, prepare, publish, retire, Request, execute, after, run,
}

-- An operation whose value is dropped.
dropped {ℓ} :
    {A : Type ℓ} {m : Action Session A} (P : Db → Type 0) (s : Session)
    → Keeps s (Durable P) m (λ a s'. P s'.durable)
    → Keeps {0} {A = Unit {0}} s (Durable P) (m >>= λ a. pure tt) (λ u s'. P s'.durable)
dropped P s h = follows h (λ a s' k. pure_follows tt k)

replaced-Moves :
    (f : Formats) (source reason actor : String) (now n : ℕ) (values : List String) (d : Db)
    → Moves d (dirtied n (replaced f source reason actor now values d))
unfolding delete_claims
replaced-Moves f source reason actor now n values d =
    let kept =
      insert_each-desired
        (claims_of f source (if str_eq reason "" then "integration" else reason) actor now values)
        (delete_claims (has_source source) d) in
    marked d _ (λ i. kept.0 i + 1) kept.1

module _ (f : Formats) (s : Session) where
  execute-Moves :
      (c : Call)
      → Keeps s (Durable (Moves s.durable)) (execute f c) (λ u s'. Moves s.durable s'.durable)
  unfolding execute delete_claims insert_claim insert_restored
  execute-Moves (add c max) = dropped _ s (
      add_claim_bounded_ends f _ s (stands s.durable) (λ id. Moves s.durable) c max
        (λ now n fits. (marked _ _ refl refl, marked _ _ refl refl)))
  execute-Moves (remove id) =
      remove_claim_ends f _ s (stands s.durable) (Moves s.durable) id
        (λ n. (marked _ _ refl refl, marked _ _ refl refl))
  execute-Moves (remove_operator id kind) =
      remove_operator_claim_ends f _ s (stands s.durable) id kind
        (λ source n at ok. marked _ _ refl refl)
  execute-Moves (restore c actor) =
      restore_claim_ends f _ s (stands s.durable) c actor (λ n free. marked _ _ refl refl)
  execute-Moves (replace source reason actor addresses max) = dropped _ s (
      replace_source_claims_bounded_ends f _ s (stands s.durable) (Moves s.durable) source reason
        actor addresses max
        (λ values counted now n is fits. (
          replaced-Moves f source reason actor now n _ s.durable,
          replaced-Moves f source reason actor now n _ s.durable,
        )))
  execute-Moves (purge now) = dropped _ s (
      purge_expired_claims_ends f _ s (stands s.durable) now
        (λ none_expired. record {
          forward = omega arith;
          same = λ h. without_none (is_expired f now) s.durable.claims none_expired;
          bounded = λ h. h;
        })
        (λ n. marked _ _ refl refl))
  execute-Moves prepare = dropped _ s (
      prepare_claim_publication_ends f _ s (stands s.durable)
        (λ n. record { forward = omega arith; same = λ h. refl; bounded = λ h. h })
        (λ n. marked _ _ refl refl))
  execute-Moves (publish revision count) =
      let moves : s.durable.desired ≡ revision
          → Moves s.durable
              (record s.durable { applied = revision; healthy = true; entry_count = count }) =
        λ at. record {
          forward = omega arith;
          same = λ h. refl;
          bounded = λ h. omega (arith, at);
        } in
      mark_claims_published_ends f _ s (stands s.durable) (Moves s.durable) revision count
        (λ at. (moves at, moves at))
  execute-Moves (retire active names) =
      dropped _ s (retire_inactive_integrations_ends f s active names (stands s.durable))

after-Moves : (f : Formats) (r : Request) (d : Db) → Moves d (after f r d)
unfolding after
after-Moves f r d =
    stays
      (weaken (execute-Moves f record { durable = d; pending = d } r.call) (λ u s' h. (h, tt))
        (λ e s' h. h) (λ s' h. h))
      _ refl

run-Moves : (f : Formats) (rs : List Request) (d : Db) → Moves d (run f rs d)
unfolding run
run-Moves f [] d = stands d
run-Moves f (r ∷ rs) d = Moves-trans d _ _ (after-Moves f r d) (run-Moves f rs (after f r d))

-- Over any sequence of the operations that write the claims or the revisions, with any failures and
-- deaths on the way: while the revision that is wanted
-- is what it was, so are the claims, in their order.
pub run_unchanged :
    (f : Formats) (rs : List Request) (d : Db)
    → (run f rs d).desired ≡ d.desired
    → (run f rs d).claims ≡ d.claims
run_unchanged f rs d = (run-Moves f rs d).same

-- Over any sequence of the operations that write the claims or the revisions, with any failures and
-- deaths on the way, the revision that is wanted does not go back, and the revision that is
-- published is never ahead of it, if it was not at the start.
pub run_ordered :
    (f : Formats) (rs : List Request) (d : Db)
    → d.applied ≤ d.desired
    → (d.desired ≤ (run f rs d).desired) × ((run f rs d).applied ≤ (run f rs d).desired)
run_ordered f rs d h = ((run-Moves f rs d).forward, (run-Moves f rs d).bounded h)
