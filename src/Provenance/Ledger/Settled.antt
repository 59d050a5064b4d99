-- ===== src/Provenance/Ledger/Settled.antt =====
-- `Reserve` as a whole: when it succeeds, what it commits, and what no outcome can undo.
use nft_firewall_v.Prelude.{
  ℕ, String, ◌≡◌, ◌⊎◌, refl, ◌∙◌, inl, inr, true, false, Option, none, some, List, arith, Outcome,
  ok, err, ◌>>◌, step_reached, refuse_if, Bool-cases,
}
use nft_firewall_v.Provenance.Assignment.{Assignment, Error, validate_active, contains_name}
use nft_firewall_v.Provenance.Assignment.ActiveSet.{IsActiveSet, validate_active_iff}
use nft_firewall_v.Provenance.Table.{row_of, assignments_from}
use nft_firewall_v.Provenance.Table.Rows.{IsTable, or_row}
use nft_firewall_v.Provenance.Table.Sorted.{Distinct-assignments_from, row_of-assignments_from}
use nft_firewall_v.Provenance.Ledger.Reserve.{
  settled, map_fresh, contains_name-row_of, reserve_all_view, reserve_all-IsTable,
}
use nft_firewall_v.Provenance.Ledger.Retire.{
  retire_if, is_due, retire_omitted_view, retire_omitted-IsTable,
}
use nft_firewall_v.Provenance.Ledger.{
  Ledger, Faults, writable, read_rows, reserve_all, retire_omitted, names_of, reserve_rows, finish,
  reserve,
}

-- The steps of a transaction that succeeds.
pub reserve_rows_steps :
    (faults : Faults) (now : ℕ) (active rows after : List Assignment)
    → reserve_rows faults now active rows ≡ ok after
    → (mid : List Assignment) × (reserve_all faults now (assignments_from rows) active rows
        ≡ ok mid)
      × (retire_omitted faults now (names_of active) (assignments_from rows) mid ≡ ok after)
unfolding reserve_rows
reserve_rows_steps faults now active rows after h =
    let (_, _, h₁) = step_reached (refuse_if faults.begin Error.begin_failed) _ h in
    let (ex, read, h₂) = step_reached (read_rows faults.query rows) _ h₁ in
    let same : ex ≡ assignments_from rows = ground arith in
    let (mid, first, second) = step_reached (reserve_all faults now ex active rows) _ h₂ in
    (mid, rw same at first, rw same at second)

settled_eq :
    (now : ℕ) (names : List String) (n : String) (o x : Option Assignment)
    → contains_name n names ≡ elim x [ none ↦ false | some _ ↦ true ]
    → retire_if now (is_due names n o) (or_row o (map_fresh now x)) ≡ settled now o x
settled_eq now names n none none e = refl
settled_eq now names n none (some x) e = refl
settled_eq now names n (some a) none e = ground arith
settled_eq now names n (some a) (some x) e = ground arith

module _ (faults : Faults) (now : ℕ) (active rows after : List Assignment) (t : IsTable rows)
    (h : reserve_rows faults now active rows ≡ ok after) where
  reserve_rows_view : (n : String) → row_of n after ≡ settled now (row_of n rows) (row_of n active)
  reserve_rows_view n =
      let (mid, first, second) = reserve_rows_steps faults now active rows after h in
      retire_omitted_view faults now (names_of active) _ mid after
        (Distinct-assignments_from rows t.distinct) second n
      ∙ rw
          (
            row_of-assignments_from n rows t.distinct,
            reserve_all_view faults now rows t active rows mid (λ m r x. x) first n,
          )
          (settled_eq now (names_of active) n (row_of n rows) (row_of n active)
            (contains_name-row_of n active))

  reserve_rows-IsTable : IsTable after
  reserve_rows-IsTable =
      let (mid, first, second) = reserve_rows_steps faults now active rows after h in
      retire_omitted-IsTable faults now (names_of active) _ mid after second
        (reserve_all-IsTable faults now rows t active rows mid first t)

-- The commit publishes the rows of the transaction, or nothing.
pub finish_lem :
    (faults : Faults) (l : Ledger) (r : Outcome Error (List Assignment))
    → let (l', result) = finish faults l r in
      ((l' ≡ l) × ((e : Error) × (result ≡ err e)))
      ⊎ ((rows : List Assignment) × (r ≡ ok rows)
          × (l'.rows ≡ rows)
          × ((result ≡ ok tt) ⊎ (result ≡ err Error.sync_failed)))
unfolding finish
finish_lem faults l (err e) = inl (refl, (e, refl))
finish_lem faults l (ok rows) = elim (Bool-cases faults.commit) [
  | inl down ↦ rw down (inl (refl, (Error.commit_failed, refl)))
  | inr up ↦ rw up (
      inr (
        rows,
        refl,
        refl,
        elim (Bool-cases faults.sync) [ inl lost ↦ inr (rw lost) | inr kept ↦ inl (rw kept) ],
      ))
]

module _ (faults : Faults) (now : ℕ) (l : Ledger) (active : List Assignment) where
  -- What a call has checked and computed when it commits.
  pub reserve_steps :
      {rows : List Assignment}
      → (writable l >> validate_active active >> reserve_rows faults now active l.rows) ≡ ok rows
      → (validate_active active ≡ ok tt) × (reserve_rows faults now active l.rows ≡ ok rows)
  reserve_steps h =
      let (_, checked, k) = step_reached (writable l >> validate_active active) _ h in
      let (_, _, v) = step_reached (writable l) _ checked in (v, k)

  -- A call ends with the ledger as it was and an error, or with the rows of a transaction that
  -- went through; only a failed sync reports an error with the rows committed.
  pub reserve_cases :
      IsTable l.rows
      → let (l', result) = reserve faults now l active in
        ((l' ≡ l) × ((e : Error) × (result ≡ err e)))
        ⊎ (IsActiveSet active
            × IsTable l'.rows
            × ((n : String) → row_of n l'.rows ≡ settled now (row_of n l.rows) (row_of n active))
            × ((result ≡ ok tt) ⊎ (result ≡ err Error.sync_failed)))
  unfolding reserve
  reserve_cases t =
      elim (finish_lem faults l
        (writable l >> validate_active active >> reserve_rows faults now active l.rows)) [
          | inl unchanged ↦ inl unchanged
          | inr (rows, e, same, result) ↦
              let (v, k) = reserve_steps e in
              inr (
                (validate_active_iff active).0 v,
                rw same (reserve_rows-IsTable faults now active l.rows rows t k),
                (λ n. rw same (reserve_rows_view faults now active l.rows rows t k n)),
                result,
              )
        ]
