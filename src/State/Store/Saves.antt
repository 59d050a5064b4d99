-- ===== src/State/Store/Saves.antt =====
-- `SaveGenerationWithMetadata` on every tape: the pointer is not touched, and a new row has an id
-- that no row had.
use nft_firewall_v.Prelude.{
  ℕ, String, false, not, ◌≡◌, ◌≢◌, refl, sym, subst, ◌∙◌, Option, none, some, List, [], ◌∷◌, ◌++◌,
  ◌==◌, arith, str_eq,
}
use nft_firewall_v.Provenance.Assignment.{Assignment}
use nft_firewall_v.Machine.Types.{Machine, Outside, Generation, Pointer, Snapshot}
use nft_firewall_v.Machine.Effects.{Error, no_rows, pure, fail, ◌>>=◌, gets, ask, act, refuse_when}
use nft_firewall_v.Machine.Logic.{
  Keeps, Reads, follows, weaken, reads_then, asks_then, gets_then, refuses_then, acts_then,
  reads_pure, reads_fail, if_follows, pure_follows, fail_follows, act_follows,
}
use nft_firewall_v.State.Files
use nft_firewall_v.State.Files.{write_snapshot, snapshot_valid}
use nft_firewall_v.State.Store
use nft_firewall_v.State.Store.{row_with, count_rows, newest, is_status, save_generation}
use nft_firewall_v.State.Store.Rows.{row_with-append}
use nft_firewall_v.State.Authority.{IsAuthorized, IsSafe, Guarded, Spares}

reads_row :
    (d : Machine) (k : Generation → Option Pointer) (e : Error) (g : Option Generation)
    → Reads {A = Option Pointer} d (elim g [ none ↦ fail e | some h ↦ pure (k h) ]) (λ p. Unit {0})
reads_row d k e none = reads_fail e
reads_row d k e (some g) = reads_pure (k g) tt

-- No row has the id, so that the pointer, which names a row, does not name it.
none_counted :
    (id : ℕ) (rows : List Generation) (g : Generation)
    → count_rows (λ h. h.id == id) rows ≡ 0
    → row_with id rows ≢ some g
unfolding count_rows row_with
none_counted id [] g h = cc
none_counted id (r ∷ rows) g h = ground (arith, none_counted id rows g)

fresh_Spares :
    (id : ℕ) (p : Option Pointer) (rows : List Generation)
    → count_rows (λ h. h.id == id) rows ≡ 0
    → IsAuthorized p rows
    → Spares id p
unfolding IsAuthorized Spares
fresh_Spares id none rows h safe = tt
fresh_Spares id (some p) rows h (g, found, published) =
    λ at. none_counted id rows g h (subst (λ n. row_with n rows ≡ some g) at found)

added-IsAuthorized :
    (p : Option Pointer) (rows added : List Generation)
    → IsAuthorized p rows
    → IsAuthorized p (rows ++ added)
unfolding IsAuthorized
added-IsAuthorized none rows added h = tt
added-IsAuthorized (some p) rows added (g, found, published) =
    (g, row_with-append p.generation rows added g found, published)

-- The files may differ.
unfoldable pub SameRows : Machine → Machine → Type 0
SameRows d d' = (d'.rows ≡ d.rows) × (d'.pointer ≡ d.pointer)

module _ (o : Outside) (d : Machine) where
  store_script_keeps :
      (id : ℕ) (script : String) (file : Option String)
      → Keeps d (SameRows d) (Store.store_script o id script file) (λ u. SameRows d)
  unfolding Store.store_script SameRows
  store_script_keeps id script none = act_follows _ (refl, refl) (refl, refl) (refl, refl)
  store_script_keeps id script (some old) =
      if_follows (str_eq old script) (λ h. pure_follows tt (refl, refl))
        (λ h. fail_follows _ (refl, refl))

  store_snapshot_keeps :
      (s : Snapshot) (file : Option Snapshot)
      → Keeps d (SameRows d) (Files.store_snapshot o s file) (λ u. SameRows d)
  unfolding Files.store_snapshot SameRows
  store_snapshot_keeps s none = act_follows _ (refl, refl) (refl, refl) (refl, refl)
  store_snapshot_keeps s (some old) =
      if_follows (str_eq (o.snapshot_text old) (o.snapshot_text s))
        (λ h. pure_follows tt (refl, refl)) (λ h. fail_follows _ (refl, refl))

  write_snapshot_keeps :
      (s : Snapshot) → Keeps d (SameRows d) (write_snapshot o s) (λ u. SameRows d)
  unfolding write_snapshot SameRows
  write_snapshot_keeps s =
      asks_then (refl, refl)
        (λ u.
          refuses_then _ _ (refl, refl)
            (λ h v. gets_then _ (λ file at. store_snapshot_keeps s file)))

  reads_prior : (previous : Option ℕ) → Reads d (Store.prior_pointer o previous) (λ p. Unit {0})
  unfolding Store.prior_pointer
  reads_prior none = reads_pure none tt
  reads_prior (some id) = asks_then refl (λ u. gets_then _ (λ g at. reads_row d _ no_rows g))

pub Guarded-SameRows : (d d' : Machine) → IsSafe d → SameRows d d' → Guarded d d'
unfolding Guarded IsSafe SameRows
Guarded-SameRows d d' safe (rows, pointer) = (
  pointer,
  subst (λ p. IsAuthorized p d'.rows) (sym pointer)
      (subst (λ r. IsAuthorized d.pointer r) (sym rows) safe),
)

SameRows-refl : (d : Machine) → SameRows d d
unfolding SameRows
SameRows-refl d = (refl, refl)

is_zero : (n : ℕ) → not (n == 0) ≡ false → n ≡ 0
is_zero n h = ground arith

SameRows-trans : (d d' d'' : Machine) → SameRows d d' → SameRows d' d'' → SameRows d d''
unfolding SameRows
SameRows-trans d d' d'' (a, b) (c, e) = (c ∙ a, e ∙ b)

-- The statement that adds the row.
added_row :
    (d d' : Machine) (id : ℕ) (g : Generation)
    → IsSafe d
    → SameRows d d'
    → Keeps d'
        (Guarded d)
        (gets (λ m. count_rows (λ h. h.id == id) m.rows) >>= λ taken.
          refuse_when (not (taken == 0)) "UNIQUE constraint failed: generations.id" >>= λ u.
          act (λ m. record m { rows = m.rows ++ g ∷ [] }) >>= λ v. ask)
        (λ u d''. Guarded d d'' × Spares id d''.pointer)
unfolding ask Guarded IsSafe
added_row d d' id g safe same =
    let (pointer, before) = Guarded-SameRows d d' safe same in
    let after = added-IsAuthorized d'.pointer d'.rows (g ∷ []) before in
    gets_then _ (λ taken at.
      refuses_then _ _ (pointer, before)
        (λ h u.
          acts_then _ (pointer, before) (pointer, after)
            (λ v.
              act_follows _ (pointer, after) (pointer, after)
                (
                  (pointer, after),
                  fresh_Spares id d'.pointer d'.rows (sym at ∙ is_zero taken h) before,
                ))))

module _ (o : Outside) (d : Machine) (safe : IsSafe d) where
  pub save_generation_keeps :
      (id : ℕ) (checksum script : String) (previous deadline : Option ℕ) (boot_id : String)
      (provenance : List Assignment)
      → Keeps d
          (Guarded d)
          (save_generation o id checksum script previous deadline boot_id provenance)
          (λ u d'. Guarded d d' × Spares id d'.pointer)
  unfolding save_generation
  save_generation_keeps id checksum script previous deadline boot_id provenance =
      let here = Guarded-SameRows d d safe (SameRows-refl d) in
      refuses_then _ _ here (λ h1 u1. refuses_then _ _ here (λ h2 u2.
        refuses_then _ _ here (λ h3 u3. refuses_then _ _ here (λ h4 u4.
          refuses_then _ _ here (λ h5 u5. refuses_then _ _ here (λ h6 u6. asks_then here (λ u7.
            gets_then _ (λ file at.
              follows
                (weaken (store_script_keeps o d id script file) (λ u d' k. k)
                  (λ e d' k. Guarded-SameRows d d' safe k) (λ d' k. Guarded-SameRows d d' safe k))
                (λ u8 d1 k1.
                  reads_then (Guarded-SameRows d d1 safe k1) (reads_prior o d1 previous) (λ prior k.
                    follows
                      (weaken (write_snapshot_keeps o d1 _) (λ u d' k. k)
                        (λ e d' k. Guarded-SameRows d d' safe (SameRows-trans d d1 d' k1 k))
                        (λ d' k. Guarded-SameRows d d' safe (SameRows-trans d d1 d' k1 k)))
                      (λ u9 d2 k2.
                        added_row d d2 id _ safe (SameRows-trans d d1 d2 k1 k2))))))))))))
