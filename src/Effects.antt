-- ===== src/Effects.antt =====
-- Actions on a state. A call may succeed, fail, fail after it took effect, or be the last that
-- the process makes.
pub mod Logic
use nft_firewall_v.Prelude.{
  ℕ, String, Bool, true, false, Option, none, some, List, [], ◌∷◌, if◌then◌else◌,
}

pub data Answer : Type 0 where
  done failed failed_after died died_after : Answer
  failed_with : String → Answer

-- The errors that callers tell apart: no row (`sql.ErrNoRows`), `ApplyExecutionError`, any other
-- failed call, and the manager's own refusals with the text that they start with.
pub data Error : Type 0 where
  no_rows execution io : Error
  refused : String → Error
  joined : Error → Error → Error

pub data Result {ℓ} (A : Type ℓ) : Type ℓ where
  ok : A → Result A
  err : Error → Result A
  dead : Result A

-- The state, the answers to come, and the times that the clock will give.
pub record World (S : Type 0) : Type 0 where
  pub machine : S
  pub tape : List Answer
  pub times : List ℕ

abbrev pub Action {ℓ} : Type 0 → Type ℓ → Type ℓ
Action S A = World S → World S × Result A

unfoldable pub pure {ℓ} : {S : Type 0} {A : Type ℓ} → A → Action S A
pure a w = (w, ok a)

unfoldable pub fail {ℓ} : {S : Type 0} {A : Type ℓ} → Error → Action S A
fail e w = (w, err e)

unfoldable pub continue {ℓ κ} :
    {S : Type 0} {A : Type ℓ} {B : Type κ}
    → (A → Action S B)
    → World S × Result A
    → World S × Result B
continue k (w, ok a) = k a w
continue k (w, err e) = (w, err e)
continue k (w, dead) = (w, dead)

infixl 5 ◌>>=◌ ◌>>◌
unfoldable pub ◌>>=◌ {ℓ κ} :
    {S : Type 0} {A : Type ℓ} {B : Type κ} → Action S A → (A → Action S B) → Action S B
unfolding continue
m >>= k = λ w. continue k (m w)

abbrev pub ◌>>◌ {ℓ} : {S : Type 0} {B : Type ℓ} → Action S (Unit {0}) → Action S B → Action S B
m >> k = m >>= λ _. k

unfoldable pub handle {ℓ} :
    {S : Type 0} {A : Type ℓ} → (Error → Action S A) → World S × Result A → World S × Result A
handle h (w, ok a) = (w, ok a)
handle h (w, err e) = h e w
handle h (w, dead) = (w, dead)

-- `if err := …; err != nil { … }` where the branch goes on from the state that the call left.
unfoldable pub catch {ℓ} :
    {S : Type 0} {A : Type ℓ} → Action S A → (Error → Action S A) → Action S A
unfolding handle
catch m h = λ w. handle h (m w)

unfoldable pub gets {ℓ} : {S : Type 0} {A : Type ℓ} → (S → A) → Action S A
gets f w = (w, ok (f w.machine))

-- A write to memory, which does not fail.
unfoldable pub puts : {S : Type 0} → (S → S) → Action S (Unit {0})
puts f w = (record w { machine = f w.machine }, ok tt)

-- A call whose effect is `f`.
unfoldable pub act_on : {S : Type 0} → (S → S) → World S → List Answer → World S × Result (Unit {0})
act_on f w [] = (record w { machine = f w.machine }, ok tt)
act_on f w (done ∷ rest) = (record w { machine = f w.machine; tape = rest }, ok tt)
act_on f w (failed ∷ rest) = (record w { tape = rest }, err io)
act_on f w (failed_with text ∷ rest) = (record w { tape = rest }, err (refused text))
act_on f w (failed_after ∷ rest) = (record w { machine = f w.machine; tape = rest }, err io)
act_on f w (died ∷ rest) = (record w { tape = rest }, dead)
act_on f w (died_after ∷ rest) = (record w { machine = f w.machine; tape = rest }, dead)

unfoldable pub act : {S : Type 0} → (S → S) → Action S (Unit {0})
unfolding act_on
act f w = act_on f w w.tape

-- A call that only reads.
unfoldable pub ask : {S : Type 0} → Action S (Unit {0})
unfolding act
ask = act (λ m. m)

unfoldable pub tick_on : {S : Type 0} → World S → List ℕ → World S × Result ℕ
tick_on w [] = (w, ok 0)
tick_on w (t ∷ rest) = (record w { times = rest }, ok t)

-- `now().UTC()`
unfoldable pub clock : {S : Type 0} → Action S ℕ
unfolding tick_on
clock w = tick_on w w.times

unfoldable pub refuse_when : {S : Type 0} → Bool → String → Action S (Unit {0})
unfolding fail pure
refuse_when b text = if b then fail (refused text) else pure tt

-- `_ = m.Store.Audit(…)`
unfoldable pub ignore : {S : Type 0} → Action S (Unit {0}) → Action S (Unit {0})
unfolding pure
ignore m = catch m (λ _. pure tt)

-- `errors.Is(err, sql.ErrNoRows)`; a joined error has what either has.
pub is_no_rows : Error → Bool
is_no_rows no_rows = true
is_no_rows execution = false
is_no_rows io = false
is_no_rows (refused text) = false
is_no_rows (joined a b) = if is_no_rows a then true else is_no_rows b

-- `nft.MutationAttempted(err)`
pub mutation_attempted : Error → Bool
mutation_attempted execution = true
mutation_attempted no_rows = false
mutation_attempted io = false
mutation_attempted (refused text) = false
mutation_attempted (joined a b) = if mutation_attempted a then true else mutation_attempted b

-- A row, or none where the query has no rows; any other error is returned.
unfoldable pub optional {ℓ} : {S : Type 0} {A : Type ℓ} → Action S A → Action S (Option A)
unfolding pure fail
optional m = catch (m >>= λ a. pure (some a)) (λ e. if is_no_rows e then pure none else fail e)
