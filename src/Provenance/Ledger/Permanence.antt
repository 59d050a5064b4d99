-- ===== src/Provenance/Ledger/Permanence.antt =====
-- What `Reserve` promises: the exact table after a success, when it succeeds, and what every
-- outcome keeps.
use nft_firewall_v.Prelude.{
  ℕ, String, ◌≡◌, refl, ◌∙◌, ap, inl, inr, true, Option, none, some, List, arith, ok,
}
use nft_firewall_v.Provenance.Assignment.{Assignment}
use nft_firewall_v.Provenance.Table.{row_of, retired_now}
use nft_firewall_v.Provenance.Table.Rows.{IsTable}
use nft_firewall_v.Provenance.Ledger.Reserve.{settled}
use nft_firewall_v.Provenance.Ledger.Settled.{reserve_cases}
use nft_firewall_v.Provenance.Ledger.{Ledger, Faults, reserve}

-- A row that takes the place of another: the same identity for good, and a tombstone is final.
pub record Succeeds (a b : Assignment) : Type 0 where
  pub same_name : b.name ≡ a.name
  pub same_id : b.id ≡ a.id
  pub same_created : b.created_at ≡ a.created_at
  pub tombstone : a.retired ≡ true → b ≡ a

-- Every name that has a row keeps one that takes its place.
pub record Keeps (before after : List Assignment) : Type 0 where
  pub at :
      (n : String) (a : Assignment)
      → row_of n before ≡ some a
      → (b : Assignment) × (row_of n after ≡ some b) × Succeeds a b

pub Succeeds-refl : (a : Assignment) → Succeeds a a
Succeeds-refl a = record {
  same_name = refl;
  same_id = refl;
  same_created = refl;
  tombstone = λ h. refl;
}

pub Keeps-refl : (rows : List Assignment) → Keeps rows rows
Keeps-refl rows = record { at = λ n a h. (a, h, Succeeds-refl a) }

pub Succeeds-trans : (a b c : Assignment) → Succeeds a b → Succeeds b c → Succeeds a c
Succeeds-trans a b c p q = record {
  same_name = q.same_name ∙ p.same_name;
  same_id = q.same_id ∙ p.same_id;
  same_created = q.same_created ∙ p.same_created;
  tombstone =
      λ h. q.tombstone (ap (λ (x : Assignment). x.retired) (p.tombstone h) ∙ h) ∙ p.tombstone h;
}

pub Keeps-trans : (x y z : List Assignment) → Keeps x y → Keeps y z → Keeps x z
Keeps-trans x y z p q = record {
  at = λ n a h.
      let (b, e, s) = p.at n a h in let (c, f, r) = q.at n b e in (c, f, Succeeds-trans a b c s r);
}

Succeeds-retired_now : (now : ℕ) (a : Assignment) → Succeeds a (retired_now now a)
Succeeds-retired_now now a = record {
  same_name = ground arith;
  same_id = ground arith;
  same_created = ground arith;
  tombstone = λ h. ground arith;
}

Keeps-settled :
    (now : ℕ) (active before after : List Assignment)
    → ((n : String) → row_of n after ≡ settled now (row_of n before) (row_of n active))
    → Keeps before after
Keeps-settled now active before after view = record {
  at = λ n a h. kept n a h (row_of n active) refl;
}
  where
    kept :
        (n : String) (a : Assignment)
        → row_of n before ≡ some a
        → (x : Option Assignment) → row_of n active ≡ x
        → (b : Assignment) × (row_of n after ≡ some b) × Succeeds a b
    kept n a h none e = (retired_now now a, view n ∙ rw (h, e), Succeeds-retired_now now a)
    kept n a h (some x) e = (a, view n ∙ rw (h, e), Succeeds-refl a)

module _ (faults : Faults) (now : ℕ) (l : Ledger) (active : List Assignment)
    (t : IsTable l.rows) where
  -- Whatever `Reserve` returns, and whatever fails below it, the table keeps the constraints of
  -- its schema.
  pub reserve-IsTable : IsTable (reserve faults now l active).0.rows
  reserve-IsTable = elim (reserve_cases faults now l active t) [
    | inl (same, _) ↦ rw same t
    | inr (_, t', _, _) ↦ t'
  ]

  -- Whatever `Reserve` returns, and whatever fails below it, each identity that had a row has one
  -- with the same id and creation time, and a row that was retired is unchanged.
  pub reserve-Keeps : Keeps l.rows (reserve faults now l active).0.rows
  reserve-Keeps = elim (reserve_cases faults now l active t) [
    | inl (same, _) ↦ rw same (Keeps-refl l.rows)
    | inr (_, _, view, _) ↦ Keeps-settled now active l.rows _ view
  ]

  -- After a success each name has the row that its row before and its entry in the active set
  -- determine: a row in the active set stays as it was, a live row outside it is retired at the
  -- present time, a retired row stays, a new entry is live with its id, and no other name has one.
  pub reserve_settles :
      (reserve faults now l active).1 ≡ ok tt
      → (n : String)
      → row_of n (reserve faults now l active).0.rows
        ≡ settled now (row_of n l.rows) (row_of n active)
  reserve_settles h = elim (reserve_cases faults now l active t) [
    | inl (_, (e, f)) ↦ cc
    | inr (_, _, view, _) ↦ view
  ]
