-- ===== src/Claims/Revisions.antt =====
-- No change of the claims without a new revision, over any sequence of operations.
pub mod History
use nft_firewall_v.Prelude.{
  ℕ, ◌+◌, ◌≤◌, String, Bool, true, false, ◌≡◌, ◌∙◌, refl, sym, subst, Option, none, some, List, [],
  ◌∷◌, if◌then◌else◌, ltb, arith, Bool-cases, inl, inr,
}
use nft_firewall_v.Effects.{Answer, World, Action, pure, ◌>>=◌, ◌>>◌}
use nft_firewall_v.Effects.Logic.{Keeps, follows, pure_follows, stays}
use nft_firewall_v.Claims.Types.{Formats, Claim, Db}
use nft_firewall_v.Claims.Session.{Session}
use nft_firewall_v.Claims.Session.Steps.{degraded, dirtied, Durable}
use nft_firewall_v.Claims.Writes.{
  insert_claim, insert_restored, delete_claims, without, has_id, has_source, with_defaults,
  add_claim_bounded, remove_claim, remove_operator_claim, restore_claim,
}
use nft_firewall_v.Claims.Replace.{insert_each, replace_source_claims_bounded}
use nft_firewall_v.Claims.Publication.{
  count_of, is_expired, mark_claims_published, purge_expired_claims, prepare_claim_publication,
}
use nft_firewall_v.Claims.Retire.{retire_inactive_integrations}
use nft_firewall_v.Claims.Ends.{
  add_claim_bounded_ends, remove_claim_ends, remove_operator_claim_ends, restore_claim_ends,
}
use nft_firewall_v.Claims.Ends.Published.{
  replaced, replace_source_claims_bounded_ends, mark_claims_published_ends,
  purge_expired_claims_ends, prepare_claim_publication_ends,
}

-- The revision that is wanted never goes back, while it stays the claims stay, and none that was
-- not wanted is taken for published.
pub record Moves (d d' : Db) : Type 0 where
  pub forward : d.desired ≤ d'.desired
  pub same : d'.desired ≡ d.desired → d'.claims ≡ d.claims
  pub bounded : d.applied ≤ d.desired → d'.applied ≤ d'.desired

pub stands : (d : Db) → Moves d d
stands d = record { forward = omega arith; same = λ h. refl; bounded = λ h. h }

between : (a b c : ℕ) → a ≤ b → b ≤ c → c ≡ a → (b ≡ a) × (c ≡ b)
between a b c p q h = (omega arith, omega arith)

next_differs : (a b : ℕ) → b ≡ a + 1 → b ≡ a → ⊥
next_differs a b e h = omega arith

counted_one : (n : ℕ) (b : Bool) → b ≡ true → (if b then 1 + n else n) ≡ 0 → ⊥
counted_one n true e h = omega arith
counted_one n false e h = cc

uncounted : (n : ℕ) (b : Bool) → b ≡ false → (if b then 1 + n else n) ≡ 0 → n ≡ 0
uncounted n true e h = cc
uncounted n false e h = h

pub Moves-trans : (a b c : Db) → Moves a b → Moves b c → Moves a c
Moves-trans a b c p q = record {
  forward = omega (arith, p.forward, q.forward);
  same = λ h.
      q.same (between a.desired b.desired c.desired p.forward q.forward h).1
      ∙ p.same (between a.desired b.desired c.desired p.forward q.forward h).0;
  bounded = λ h. q.bounded (p.bounded h);
}

-- A new revision covers any change.
pub marked : (d d' : Db) → d'.desired ≡ d.desired + 1 → d'.applied ≡ d.applied → Moves d d'
marked d d' e a = record {
  forward = omega (arith, e);
  same = λ h. elim (next_differs d.desired d'.desired e h) [ ];
  bounded = λ h. omega (arith, e, a, h);
}

pub insert_each-desired :
    (cs : List Claim) (d : Db)
    → ((insert_each cs d).desired ≡ d.desired) × ((insert_each cs d).applied ≡ d.applied)
unfolding insert_each insert_claim
insert_each-desired [] d = (refl, refl)
insert_each-desired (c ∷ cs) d = insert_each-desired cs (insert_claim c d)

pub without_none :
    (test : Claim → Bool) (cs : List Claim) → count_of test cs ≡ 0 → without test cs ≡ cs
unfolding count_of without
without_none test [] h = refl
without_none test (c ∷ cs) h = elim (Bool-cases (test c)) [
  | inl e ↦ elim (counted_one (count_of test cs) (test c) e h) [ ]
  | inr e ↦ rw e (λ i. c ∷ without_none test cs (uncounted (count_of test cs) (test c) e h) i)
]

-- An operation that writes the claims or the revisions, with what it is called with.
pub data Call : Type 0 where
  add : Claim → ℕ → Call
  remove : ℕ → Call
  remove_operator : ℕ → String → Call
  restore : Claim → String → Call
  replace : String → String → String → List String → ℕ → Call
  purge : ℕ → Call
  prepare : Call
  publish : ℕ → ℕ → Call
  -- Which integrations are active, and the names that stand in `integration_state`.
  retire : (String → Bool) → List String → Call

pub record Request : Type 0 where
  pub call : Call
  pub tape : List Answer
  pub times : List ℕ

module _ (f : Formats) where
  unfoldable pub execute : Call → Action Session (Unit {0})
  execute (add c max) = add_claim_bounded f c max >>= λ id. pure tt
  execute (remove id) = remove_claim f id
  execute (remove_operator id kind) = remove_operator_claim f id kind
  execute (restore c actor) = restore_claim f c actor
  execute (replace source reason actor addresses max) =
      replace_source_claims_bounded f source reason actor addresses max >>= λ n. pure tt
  execute (purge now) = purge_expired_claims f now >>= λ n. pure tt
  execute prepare = prepare_claim_publication f >>= λ r. pure tt
  execute (publish revision count) = mark_claims_published revision count
  execute (retire active names) = retire_inactive_integrations f active names >>= λ n. pure tt

  unfoldable pub after : Request → Db → Db
  after r d =
      ((execute r.call
        record { machine = record { durable = d; pending = d }; tape = r.tape; times = r.times }).0
      ).machine.durable

  unfoldable pub run : List Request → Db → Db
  run [] d = d
  run (r ∷ rs) d = run rs (after r d)
