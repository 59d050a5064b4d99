-- ===== src/State/Store/Rows.antt =====
-- What an UPDATE leaves of a row that is looked up by its id.
use nft_firewall_v.Prelude.{
  ℕ, Bool, true, false, not, ◌≡◌, refl, ap, ◌∙◌, ◌&&◌, ◌||◌, Option, none, some, List, [], ◌∷◌,
  ◌++◌, if◌then◌else◌, ◌==◌, arith,
}
use nft_firewall_v.Machine.Types.{
  Generation, Status, pending, applied, commit_prepared, committed, rolled_back, Pointer,
}
use nft_firewall_v.State.Store.{update_rows, row_with, is_status, prepared_from, finalized}

unfoldable pub updated : (Generation → Bool) → (Generation → Generation) → Generation → Generation
updated test f g = if test g then f g else g

module _ (test : Generation → Bool) (f : Generation → Generation)
    (keeps : (g : Generation) → (f g).id ≡ g.id) where
  pub row_with-update_rows :
      (id : ℕ) (rows : List Generation) (g : Generation)
      → row_with id rows ≡ some g
      → row_with id (update_rows test f rows) ≡ some (updated test f g)
  unfolding row_with update_rows updated
  row_with-update_rows id [] g h = cc
  row_with-update_rows id (r ∷ rows) g h = ground (arith, row_with-update_rows id rows g, keeps r)

-- A row is found under the id that it was looked up with.
pub row_with-id :
    (id : ℕ) (rows : List Generation) (g : Generation) → row_with id rows ≡ some g → g.id ≡ id
unfolding row_with
row_with-id id [] g h = cc
row_with-id id (r ∷ rows) g h = ground (arith, row_with-id id rows g)

pub row_with-append :
    (id : ℕ) (rows added : List Generation) (g : Generation)
    → row_with id rows ≡ some g
    → row_with id (rows ++ added) ≡ some g
unfolding row_with
row_with-append id [] added g h = cc
row_with-append id (r ∷ rows) added g h = ground (arith, row_with-append id rows added g)

is_prepared : {s : Status} → s ≡ commit_prepared → is_status s commit_prepared ≡ true
unfolding is_status
is_prepared h = ap (λ s. is_status s commit_prepared) h

other_false :
    (g : Generation) (b : Bool)
    → g.status ≡ commit_prepared
    → ((is_status g.status pending || is_status g.status applied) && b) ≡ false
unfolding is_status
other_false g b h = ap (λ s. (is_status s pending || is_status s applied) && b) h

both_true :
    (g : Generation) (id : ℕ) (s : Status)
    → g.id ≡ id
    → is_status g.status s ≡ true
    → (g.id == id && is_status g.status s) ≡ true
both_true g id s named h = ground arith

updated-true :
    (test : Generation → Bool) (f : Generation → Generation) (g : Generation)
    → test g ≡ true
    → updated test f g ≡ f g
unfolding updated
updated-true test f g h = ap (λ b. if b then f g else g) h

updated-false :
    (test : Generation → Bool) (f : Generation → Generation) (g : Generation)
    → test g ≡ false
    → updated test f g ≡ g
unfolding updated
updated-false test f g h = ap (λ b. if b then f g else g) h

-- The row of a generation that enters `commit_prepared`.
pub row_with-prepared :
    (id : ℕ) (previous : Option Pointer) (rows : List Generation) (g : Generation)
    → row_with id rows ≡ some g
    → is_status g.status applied ≡ true
    → row_with id
        (update_rows (λ h. h.id == id && is_status h.status applied) (prepared_from previous) rows)
      ≡ some (prepared_from previous g)
unfolding prepared_from
row_with-prepared id previous rows g found h =
    row_with-update_rows (λ h. h.id == id && is_status h.status applied) (prepared_from previous)
      (λ g. refl) id rows g found
    ∙ ap some (
        updated-true (λ h. h.id == id && is_status h.status applied) (prepared_from previous) g
          (both_true g id _ (row_with-id id rows g found) h))

-- The row of a prepared generation after `FinalizeCommit`.
pub row_with-finalized :
    (id : ℕ) (rows : List Generation) (g : Generation)
    → row_with id rows ≡ some g
    → g.status ≡ commit_prepared
    → row_with id (finalized id rows)
      ≡ some (record g { status = committed; rollback_deadline = none })
unfolding finalized
row_with-finalized id rows g found h =
    let others =
      row_with-update_rows
        (λ g. (is_status g.status pending || is_status g.status applied) && not (g.id == id))
        (λ g. record g { status = rolled_back }) (λ g. refl) id rows g found in
    let spared = others ∙ ap some (updated-false _ _ g (other_false g _ h)) in
    row_with-update_rows (λ g. g.id == id && is_status g.status commit_prepared)
      (λ g. record g { status = committed; rollback_deadline = none }) (λ g. refl) id _ g spared
    ∙ ap some (updated-true _ _ g (both_true g id _ (row_with-id id rows g found) (is_prepared h)))
