-- ===== src/Provenance/Ledger/History.antt =====
-- Any sequence of calls on a ledger, failing ones included: identities are permanent.
use nft_firewall_v.Prelude.{
  ℕ, String, ◌≡◌, ◌≢◌, sym, ◌∙◌, ap, inl, inr, some, List, [], ◌∷◌, All, eq_iff, Option, Bool-cases,
  str_eq,
}
use nft_firewall_v.Provenance.Assignment.{Assignment}
use nft_firewall_v.Provenance.Assignment.ActiveSet.{Apart, Distinct}
use nft_firewall_v.Provenance.Table.{row_of}
use nft_firewall_v.Provenance.Table.Rows.{IsTable}
use nft_firewall_v.Provenance.Ledger.Permanence.{
  Keeps, Keeps-refl, Keeps-trans, reserve-IsTable, reserve-Keeps,
}
use nft_firewall_v.Provenance.Ledger.Merged.{merge_from-IsTable, merge_from-Keeps}
use nft_firewall_v.Provenance.Ledger.{Ledger, Faults, reserve, merge_from}

-- A call, with the time and the faults that it meets.
pub data Call : Type 0 where
  reserves : Faults → ℕ → List Assignment → Call
  merges : Faults → ℕ → Option Ledger → Call

unfoldable pub step : Ledger → Call → Ledger
step l (reserves faults now active) = (reserve faults now l active).0
step l (merges faults now saved) = (merge_from faults now l saved).0

unfoldable pub run : Ledger → List Call → Ledger
run l [] = l
run l (c ∷ cs) = run (step l c) cs

step-IsTable : (l : Ledger) (c : Call) → IsTable l.rows → IsTable (step l c).rows
unfolding step
step-IsTable l (reserves faults now active) t = reserve-IsTable faults now l active t
step-IsTable l (merges faults now saved) t = merge_from-IsTable faults now l t saved

step-Keeps : (l : Ledger) (c : Call) → IsTable l.rows → Keeps l.rows (step l c).rows
unfolding step
step-Keeps l (reserves faults now active) t = reserve-Keeps faults now l active t
step-Keeps l (merges faults now saved) t = merge_from-Keeps faults now l t saved

pub constraints_hold : (l : Ledger) (cs : List Call) → IsTable l.rows → IsTable (run l cs).rows
unfolding run
constraints_hold l [] t = t
constraints_hold l (c ∷ cs) t = constraints_hold (step l c) cs (step-IsTable l c t)

-- Over any calls, failing or not, each identity keeps its id and its creation time, and a retired
-- row is never changed again.
pub run-Keeps : (l : Ledger) (cs : List Call) → IsTable l.rows → Keeps l.rows (run l cs).rows
unfolding run
run-Keeps l [] t = Keeps-refl l.rows
run-Keeps l (c ∷ cs) t =
    Keeps-trans _ _ _ (step-Keeps l c t) (run-Keeps (step l c) cs (step-IsTable l c t))

Apart-id :
    (a : Assignment) (rows : List Assignment) (m : String) (b : Assignment)
    → All (Apart a) rows
    → row_of m rows ≡ some b
    → b.id ≢ a.id
unfolding row_of
Apart-id a [] m b d e same = absurd (cc)
Apart-id a (c ∷ rows) m b d e same = elim (Bool-cases (str_eq c.name m)) [
  | inl here ↦
      let x : c ≡ b = cc (rw here at e) in absurd (d.0.1 (ap (λ (y : Assignment). y.id) x ∙ same))
  | inr there ↦ Apart-id a rows m b d.1 (rw there at e) same
]

id_owner :
    (rows : List Assignment) (n m : String) (a b : Assignment)
    → Distinct rows
    → row_of n rows ≡ some a
    → row_of m rows ≡ some b
    → b.id ≡ a.id
    → m ≡ n
unfolding row_of
id_owner [] n m a b d e f same = absurd (cc)
id_owner (c ∷ rows) n m a b d e f same = elim (Bool-cases (str_eq c.name n)) [
  | inl n_here ↦ elim (Bool-cases (str_eq c.name m)) [
    | inl m_here ↦ sym ((eq_iff c.name m).0 m_here) ∙ (eq_iff c.name n).0 n_here
    | inr m_there ↦
        let x : c ≡ a = cc (rw n_here at e) in
        absurd
          (Apart-id c rows m b d.0 (rw m_there at f) (same ∙ ap (λ (y : Assignment). y.id) (sym x)))
  ]
  | inr n_there ↦ elim (Bool-cases (str_eq c.name m)) [
    | inl m_here ↦
        let x : c ≡ b = cc (rw m_here at f) in
        absurd (
          Apart-id c rows n a d.0 (rw n_there at e)
            (sym same ∙ ap (λ (y : Assignment). y.id) (sym x)))
    | inr m_there ↦ id_owner rows n m a b d.1 (rw n_there at e) (rw m_there at f) same
  ]
]

-- An id that once belonged to a name belongs to no other name after any calls, failing or not,
-- whether its row is live or retired.
pub run_id_permanent :
    (l : Ledger) (cs : List Call) (n m : String) (a b : Assignment)
    → IsTable l.rows
    → row_of n l.rows ≡ some a
    → row_of m (run l cs).rows ≡ some b
    → b.id ≡ a.id
    → m ≡ n
run_id_permanent l cs n m a b t e f same =
    let (a', e', s) = (run-Keeps l cs t).at n a e in
    id_owner (run l cs).rows n m a' b (constraints_hold l cs t).distinct e' f (same ∙ sym s.same_id)
