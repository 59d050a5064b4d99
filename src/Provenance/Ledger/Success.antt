-- ===== src/Provenance/Ledger/Success.antt =====
-- When `Reserve` succeeds.
use nft_firewall_v.Prelude.{
  ℕ, ◌≡◌, ◌↔◌, inl, inr, true, false, List, arith, All, All-mono, ok, ◌>>◌,
}
use nft_firewall_v.Provenance.Assignment.{Assignment, validate_active}
use nft_firewall_v.Provenance.Assignment.ActiveSet.{IsActiveSet, validate_active_iff}
use nft_firewall_v.Provenance.Table.{assignments_from}
use nft_firewall_v.Provenance.Table.Rows.{IsTable}
use nft_firewall_v.Provenance.Ledger.Reserve.{Reservable, reserve_all-Reservable}
use nft_firewall_v.Provenance.Ledger.Accepts.{
  IsCalm, Room-start, reserve_all_accepts, retire_omitted_accepts,
}
use nft_firewall_v.Provenance.Ledger.Settled.{finish_lem, reserve_steps, reserve_rows_steps}
use nft_firewall_v.Provenance.Ledger.{
  Ledger, Faults, writable, names_of, reserve_rows, finish, reserve,
}

module _ (faults : Faults) (now : ℕ) (rows active : List Assignment) (t : IsTable rows) where
  pub reserve_rows-Reservable :
      (after : List Assignment)
      → reserve_rows faults now active rows ≡ ok after
      → All (Reservable rows) active
  reserve_rows-Reservable after h =
      let (mid, first, _) = reserve_rows_steps faults now active rows after h in
      reserve_all-Reservable faults now rows t active rows mid first

  reserve_rows_accepts :
      IsCalm faults
      → IsActiveSet active
      → All (Reservable rows) active
      → (after : List Assignment) × (reserve_rows faults now active rows ≡ ok after)
  unfolding reserve_rows
  reserve_rows_accepts calm v h =
      let (mid, first) =
        reserve_all_accepts faults calm now rows t active rows v.each v.distinct h
          (All-mono (λ a r. Room-start faults calm now rows t a r) active h) in
      let (after, second) =
        retire_omitted_accepts faults calm now rows t (names_of active) (assignments_from rows)
          mid in
      (after, ground (arith, calm.begins, calm.queries, first, second))

-- On a writable ledger whose database and file do not fail, `Reserve` succeeds exactly on an
-- active set each of whose members either has a live row with the same id, or has neither its
-- name nor its id in any row, retired ones included.
pub reserve_succeeds_iff :
    (faults : Faults) (now : ℕ) (l : Ledger) (active : List Assignment)
    → IsCalm faults
    → l.opened ≡ true
    → l.read_only ≡ false
    → IsTable l.rows
    → ((reserve faults now l active).1 ≡ ok tt)
      ↔ (IsActiveSet active × All (Reservable l.rows) active)
unfolding reserve finish
reserve_succeeds_iff faults now l active calm up rw_mode t = (
  λ h.
      elim (finish_lem faults l
        (writable l >> validate_active active >> reserve_rows faults now active l.rows)) [
          | inl (_, (e, f)) ↦ cc
          | inr (rows, e, _, _) ↦
              let (v, k) = reserve_steps faults now l active e in
              (
                (validate_active_iff active).0 v,
                reserve_rows-Reservable faults now l.rows active t rows k,
              )
        ],
  λ h.
      let (after, k) = reserve_rows_accepts faults now l.rows active t calm h.0 h.1 in
      ground (arith, (validate_active_iff active).1 h.0, k, calm.commits, calm.syncs),
)
