-- ===== src/Provenance/Ledger/Merged.antt =====
-- `MergeFrom` as a whole: the table after a success, and what every outcome keeps.
use nft_firewall_v.Prelude.{
  ℕ, String, ◌≡◌, ◌⊎◌, refl, inl, inr, ap, ◌∙◌, true, false, some, none, List, [], ◌∷◌, str_eq,
  arith, ok, err, ◌>>=◌, ◌>>◌, step_reached, eq_iff, Option, Option-cases, Bool-cases,
}
use nft_firewall_v.Provenance.Assignment.{Assignment, Error, contains_name}
use nft_firewall_v.Provenance.Table.{row_of, assignments_from}
use nft_firewall_v.Provenance.Table.Rows.{IsTable, or_row}
use nft_firewall_v.Provenance.Table.Sorted.{row_of-assignments_from}
use nft_firewall_v.Provenance.Ledger.Maps.{by_name-row_of}
use nft_firewall_v.Provenance.Ledger.Reserve.{contains_name-row_of}
use nft_firewall_v.Provenance.Ledger.Settled.{finish_lem}
use nft_firewall_v.Provenance.Ledger.Permanence.{Keeps, Keeps-refl, Succeeds-refl}
use nft_firewall_v.Provenance.Ledger.Merge.{map_restored, Agrees, merge_all_view, merge_all-IsTable}
use nft_firewall_v.Provenance.Ledger.{
  Ledger, Faults, writable, read_rows, by_name, by_id, finish, check_saved, check_live, merge_all,
  merge_rows, merge_from, names_of,
}

check_saved_lem :
    (live : String → Option Assignment) (ids : ℕ → Option Assignment) (saved : List Assignment)
    → check_saved live ids saved ≡ ok tt
    → (n : String) (a v : Assignment) → row_of n saved ≡ some a
    → live n ≡ some v
    → (v.id ≡ a.id) × (a.retired ≡ true → v.retired ≡ true)
unfolding check_saved row_of
check_saved_lem live ids [] h n a v e f = cc
check_saved_lem live ids (b ∷ saved) h n a v e f = elim (Option-cases (live b.name)) [
  | inl miss ↦
      check_saved_lem live ids saved (ground arith) n a v (ground (arith, eq_iff b.name n)) f
  | inr (w, hit) ↦
      let rest = check_saved_lem live ids saved (ground arith) n a v in
      elim (Bool-cases (str_eq b.name n)) [
        | inl here ↦
            let name : b.name ≡ n = (eq_iff b.name n).0 here in
            let row : b ≡ a = cc (rw here at e) in
            let found : w ≡ v = cc (hit, f, ap live name) in ((ground arith), (λ r. ground arith))
        | inr there ↦ rest (ground arith) f
      ]
]

check_live_lem :
    (names : List String) (live : List Assignment)
    → check_live names live ≡ ok tt
    → (n : String) (v : Assignment) → row_of n live ≡ some v
    → contains_name n names ≡ false
    → v.retired ≡ true
unfolding check_live row_of
check_live_lem names [] h n v e out = cc
check_live_lem names (b ∷ live) h n v e out =
    ground (arith, check_live_lem names live (ground arith) n v, eq_iff b.name n)

-- What the loops over `savedAssignments` and `liveAssignments` have checked.
Agrees-of :
    (rows saved : List Assignment) (n : String)
    → ((a v : Assignment)
        → row_of n saved ≡ some a
        → row_of n rows ≡ some v
        → (v.id ≡ a.id) × (a.retired ≡ true → v.retired ≡ true))
    → ((v : Assignment) → row_of n rows ≡ some v → row_of n saved ≡ none → v.retired ≡ true)
    → (o p : Option Assignment) → row_of n rows ≡ o
    → row_of n saved ≡ p
    → Agrees o p
Agrees-of rows saved n f g none p e q = tt
Agrees-of rows saved n f g (some v) none e q = g v e q
Agrees-of rows saved n f g (some v) (some a) e q = f a v q e

module _ (faults : Faults) (now : ℕ) (saved rows after : List Assignment) (t : IsTable rows)
    (h : merge_rows faults now saved rows ≡ ok after) where
  merge_rows_steps :
      (check_saved
          (by_name (assignments_from rows) (λ _. none))
          (by_id (assignments_from rows) (λ _. none))
          saved
        ≡ ok tt)
      × (check_live (names_of saved) (assignments_from rows) ≡ ok tt)
      × (merge_all faults now (by_name (assignments_from rows) (λ _. none)) saved rows ≡ ok after)
  unfolding merge_rows read_rows
  merge_rows_steps = ground arith

  merge_rows_view :
      (n : String) → row_of n after ≡ or_row (row_of n rows) (map_restored now (row_of n saved))
  merge_rows_view =
      merge_all_view faults now rows _ (λ n. by_name-row_of rows n t.distinct) saved rows after
        (λ m r x. x) merge_rows_steps.2

  merge_rows-IsTable : IsTable after
  merge_rows-IsTable =
      merge_all-IsTable faults now rows _ (λ n. by_name-row_of rows n t.distinct) saved rows after
        merge_rows_steps.2 t

  merge_rows-Agrees : (n : String) → Agrees (row_of n rows) (row_of n saved)
  merge_rows-Agrees n =
      Agrees-of rows saved n
        (λ a v e f.
          check_saved_lem _ _ saved merge_rows_steps.0 n a v e
            (by_name-row_of rows n t.distinct ∙ f))
        (λ v f out.
          check_live_lem (names_of saved) (assignments_from rows) merge_rows_steps.1 n v
            (row_of-assignments_from n rows t.distinct ∙ f) (contains_name-row_of n saved ∙ rw out))
        (row_of n rows) (row_of n saved) refl refl

-- What holds between the tables before and after a merge, and the saved one.
pub record Merges (now : ℕ) (saved before after : List Assignment) : Type 0 where
  pub view :
      (n : String) → row_of n after ≡ or_row (row_of n before) (map_restored now (row_of n saved))
  pub agrees : (n : String) → Agrees (row_of n before) (row_of n saved)

module _ (faults : Faults) (now : ℕ) (l saved : Ledger) (t : IsTable l.rows) where
  merge_steps :
      {after : List Assignment}
      → (writable l
          >> (read_rows faults.saved_query saved.rows >>= λ rows.
              merge_rows faults now rows l.rows))
        ≡ ok after
      → merge_rows faults now (assignments_from saved.rows) l.rows ≡ ok after
  unfolding read_rows
  merge_steps h =
      let (_, _, k) = step_reached (writable l) _ h in
      let (rows, read, m) = step_reached (read_rows faults.saved_query saved.rows) _ k in
      ground arith

  merge_cases :
      let (l', result) = merge_from faults now l (some saved) in
      ((l' ≡ l) × ((e : Error) × (result ≡ err e)))
      ⊎ (Merges now (assignments_from saved.rows) l.rows l'.rows
          × IsTable l'.rows
          × ((result ≡ ok tt) ⊎ (result ≡ err Error.sync_failed)))
  unfolding merge_from
  merge_cases =
      elim (finish_lem faults l (
        writable l
        >> (read_rows faults.saved_query saved.rows >>= λ rows.
            merge_rows faults now rows l.rows))) [
              | inl unchanged ↦ inl unchanged
              | inr (rows, e, same, result) ↦
                  let k = merge_steps e in
                  inr (
                    rw same (record {
                      view = merge_rows_view faults now _ l.rows rows t k;
                      agrees = merge_rows-Agrees faults now _ l.rows rows t k;
                    }),
                    rw same (merge_rows-IsTable faults now _ l.rows rows t k),
                    result,
                  )
            ]

  merge-IsTable : IsTable (merge_from faults now l (some saved)).0.rows
  merge-IsTable = elim merge_cases [ inl (same, _) ↦ rw same t | inr (_, t', _) ↦ t' ]

  Keeps-Merges :
      (other after : List Assignment) → Merges now other l.rows after → Keeps l.rows after
  Keeps-Merges other after m = record { at = λ n a h. (a, m.view n ∙ rw h, Succeeds-refl a) }

  merge-Keeps : Keeps l.rows (merge_from faults now l (some saved)).0.rows
  merge-Keeps = elim merge_cases [
    | inl (same, _) ↦ rw same (Keeps-refl l.rows)
    | inr (m, _, _) ↦ Keeps-Merges (assignments_from saved.rows) _ m
  ]

  -- After a successful merge with a saved ledger that meets the constraints of the schema, every
  -- live row is as it was, every other saved name has its saved row (its creation time set, if it
  -- was zero), and no other name has a row. The saved ledger then agreed with the live one: a name
  -- of both has one id and is not retired in the saved ledger alone, and a name of the live ledger
  -- alone is retired.
  pub merge_settles :
      IsTable saved.rows
      → (merge_from faults now l (some saved)).1 ≡ ok tt
      → Merges now saved.rows l.rows (merge_from faults now l (some saved)).0.rows
  merge_settles s h = elim merge_cases [
    | inl (_, (e, f)) ↦ absurd (cc)
    | inr (m, _, _) ↦
        let read = λ (n : String). row_of-assignments_from n saved.rows s.distinct in
        record { view = λ n. rw (← read n) (m.view n); agrees = λ n. rw (← read n) (m.agrees n) }
  ]

-- The same two facts where the saved ledger may fail to open.
module _ (faults : Faults) (now : ℕ) (l : Ledger) (t : IsTable l.rows) where
  unopened : (merge_from faults now l none).0 ≡ l
  unfolding merge_from finish
  unopened = ground arith

  pub merge_from-IsTable : (saved : Option Ledger) → IsTable (merge_from faults now l saved).0.rows
  merge_from-IsTable none = rw unopened t
  merge_from-IsTable (some saved) = merge-IsTable faults now l saved t

  pub merge_from-Keeps :
      (saved : Option Ledger) → Keeps l.rows (merge_from faults now l saved).0.rows
  merge_from-Keeps none = rw unopened (Keeps-refl l.rows)
  merge_from-Keeps (some saved) = merge-Keeps faults now l saved t
