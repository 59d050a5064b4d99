-- ===== src/Provenance/Ledger/Linked.antt =====
-- `Reserve` and `ValidateRequired` together: what was reserved is accepted for a generation.
use nft_firewall_v.Prelude.{
  ℕ, String, ◌≡◌, refl, ◌∙◌, inl, inr, true, false, some, List, [], ◌∷◌, arith, All, ok, ◌>>◌,
  eq_iff,
}
use nft_firewall_v.Provenance.Assignment.{Assignment, validate_active}
use nft_firewall_v.Provenance.Assignment.ActiveSet.{IsActive, Distinct, Apart, validate_active_iff}
use nft_firewall_v.Provenance.Table.{row_of}
use nft_firewall_v.Provenance.Table.Rows.{IsTable}
use nft_firewall_v.Provenance.Ledger.Reserve.{Reservable, settled, fresh}
use nft_firewall_v.Provenance.Ledger.Settled.{finish_lem, reserve_steps}
use nft_firewall_v.Provenance.Ledger.Permanence.{reserve_settles}
use nft_firewall_v.Provenance.Ledger.Success.{reserve_rows-Reservable}
use nft_firewall_v.Provenance.Ledger.Required.{Allocated, IsRequired, validate_required_iff}
use nft_firewall_v.Provenance.Ledger.{
  Ledger, Faults, writable, finish, reserve_rows, reserve, validate_required,
}

-- Each member is its name's first entry.
abbrev Listed : List Assignment → Assignment → Type 0
Listed active a = row_of a.name active ≡ some a

Listed-cons :
    (b : Assignment) (active rest : List Assignment)
    → All (Apart b) rest
    → All (Listed active) rest
    → All (Listed (b ∷ active)) rest
unfolding row_of
Listed-cons b active [] d h = tt
Listed-cons b active (a ∷ rest) d h =
    (ground (arith, eq_iff b.name a.name, d.0.0, h.0), Listed-cons b active rest d.1 h.1)

Listed-self : (active : List Assignment) → Distinct active → All (Listed active) active
unfolding row_of
Listed-self [] d = tt
Listed-self (a ∷ active) d =
    (ground (arith, eq_iff a.name a.name), Listed-cons a active active d.0 (Listed-self active d.1))

module _ (now : ℕ) (before after active : List Assignment)
    (view : (n : String) → row_of n after ≡ settled now (row_of n before) (row_of n active)) where
  Allocated-settled : (a : Assignment) → Listed active a → Reservable before a → Allocated after a
  Allocated-settled a e (inl (p, q, same, _)) = (p, view a.name ∙ rw (q, e), same)
  Allocated-settled a e (inr (q, _)) = (fresh now a, view a.name ∙ rw (q, e), refl)

  All-IsRequired :
      (rest : List Assignment)
      → All IsActive rest
      → All (Listed active) rest
      → All (Reservable before) rest
      → All (IsRequired after) rest
  All-IsRequired [] v e r = tt
  All-IsRequired (a ∷ rest) v e r = (
    record { named = v.0.named; in_range = v.0.in_range; allocated = Allocated-settled a e.0 r.0 },
    All-IsRequired rest v.1 e.1 r.1,
  )

opened-reserve :
    (faults : Faults) (now : ℕ) (l : Ledger) (active : List Assignment)
    → (reserve faults now l active).0.opened ≡ l.opened
unfolding reserve finish
opened-reserve faults now l active = ground arith

-- After `Reserve` has succeeded, `ValidateRequired` accepts the set that was reserved, on a ledger
-- that is open and answers its queries.
pub validate_required-reserve :
    (faults later : Faults) (now : ℕ) (l : Ledger) (active : List Assignment)
    → IsTable l.rows
    → l.opened ≡ true
    → later.query ≡ false
    → (reserve faults now l active).1 ≡ ok tt
    → validate_required later (reserve faults now l active).0 active ≡ ok tt
unfolding reserve
validate_required-reserve faults later now l active t up quiet h =
    elim (finish_lem faults l
      (writable l >> validate_active active >> reserve_rows faults now active l.rows)) [
        | inl (_, (e, f)) ↦ absurd (cc)
        | inr (rows, e, _, _) ↦
            let (v, k) = reserve_steps faults now l active e in
            let s = (validate_active_iff active).0 v in
            (validate_required_iff later _ active (opened-reserve faults now l active ∙ up) quiet).1
              (
                All-IsRequired now l.rows _ active (reserve_settles faults now l active t h) active
                    s.each (Listed-self active s.distinct)
                    (reserve_rows-Reservable faults now l.rows active t rows k),
                s.distinct,
              )
      ]
