-- ===== src/Effects/Logic/Rules.antt =====
-- Endings, and the rules of the single steps.
use nft_firewall_v.Prelude.{◌≡◌, refl, sym, subst, List, [], ◌∷◌}
use nft_firewall_v.Effects.{
  Answer, done, failed, failed_after, failed_with, died, died_after, Error, Result, ok, err, dead,
  World, Action, pure, fail, ◌>>=◌, continue, handle, catch, gets, puts, act, act_on,
}

unfoldable pub Ends {ℓ} :
    {S : Type 0} {A : Type ℓ}
    → (A → S → Type 0)
    → (Error → S → Type 0)
    → (S → Type 0)
    → World S × Result A
    → Type 0
Ends K X D (w, ok a) = K a w.machine
Ends K X D (w, err e) = X e w.machine
Ends K X D (w, dead) = D w.machine

pub record Follows {ℓ} {S : Type 0} {A : Type ℓ} (d : S) (m : Action S A) (K : A → S → Type 0)
    (X : Error → S → Type 0) (D : S → Type 0) : Type 0 where
  pub ends : (w : World S) → w.machine ≡ d → Ends K X D (m w)

-- Every ending that is not a value leaves the machine in `I`.
abbrev pub Keeps {ℓ} :
    {S : Type 0} {A : Type ℓ} → S → (S → Type 0) → Action S A → (A → S → Type 0) → Type 0
Keeps d I m K = Follows d m K (λ e. I) I

-- The action leaves the machine as it is, and its value has `F`.
abbrev pub Reads {ℓ} : {S : Type 0} {A : Type ℓ} → S → Action S A → (A → Type 0) → Type 0
Reads d m F = Keeps d (λ d'. d' ≡ d) m (λ a d'. (d' ≡ d) × F a)

continue-Ends {ℓ κ} :
    {S : Type 0} {A : Type ℓ} {B : Type κ} {J : A → S → Type 0} (K : B → S → Type 0)
    (X : Error → S → Type 0) (D : S → Type 0) (k : A → Action S B) (end : World S × Result A)
    → Ends J X D end
    → ((a : A) (d : S) → J a d → Follows d (k a) K X D)
    → Ends K X D (continue k end)
unfolding Ends continue
continue-Ends K X D k (w, ok a) e f = (f a w.machine e).ends w refl
continue-Ends K X D k (w, err x) e f = e
continue-Ends K X D k (w, dead) e f = e

pub follows {ℓ κ} :
    {S : Type 0} {A : Type ℓ} {B : Type κ} {d : S} {J : A → S → Type 0} {K : B → S → Type 0}
    {X : Error → S → Type 0} {D : S → Type 0} {m : Action S A} {k : A → Action S B}
    → Follows d m J X D
    → ((a : A) (d' : S) → J a d' → Follows d' (k a) K X D)
    → Follows d (m >>= k) K X D
unfolding ◌>>=◌
follows {K = K} {X = X} {D = D} {m = m} {k = k} first rest = record {
  ends = λ w at. continue-Ends K X D k (m w) (first.ends w at) rest;
}

handle-Ends {ℓ} :
    {S : Type 0} {A : Type ℓ} {Y : Error → S → Type 0} (K : A → S → Type 0) (X : Error → S → Type 0)
    (D : S → Type 0) (h : Error → Action S A) (end : World S × Result A)
    → Ends K Y D end
    → ((e : Error) (d : S) → Y e d → Follows d (h e) K X D)
    → Ends K X D (handle h end)
unfolding Ends handle
handle-Ends K X D h (w, ok a) e f = e
handle-Ends K X D h (w, err x) e f = (f x w.machine e).ends w refl
handle-Ends K X D h (w, dead) e f = e

pub catches {ℓ} :
    {S : Type 0} {A : Type ℓ} {d : S} {K : A → S → Type 0} {Y : Error → S → Type 0}
    {X : Error → S → Type 0} {D : S → Type 0} {m : Action S A} {h : Error → Action S A}
    → Follows d m K Y D
    → ((e : Error) (d' : S) → Y e d' → Follows d' (h e) K X D)
    → Follows d (catch m h) K X D
unfolding catch
catches {K = K} {X = X} {D = D} {m = m} {h = h} first rest = record {
  ends = λ w at. handle-Ends K X D h (m w) (first.ends w at) rest;
}

weaken-Ends {ℓ} :
    {S : Type 0} {A : Type ℓ} {J : A → S → Type 0} {Y : Error → S → Type 0} {C : S → Type 0}
    (K : A → S → Type 0) (X : Error → S → Type 0) (D : S → Type 0) (end : World S × Result A)
    → Ends J Y C end
    → ((a : A) (d : S) → J a d → K a d)
    → ((e : Error) (d : S) → Y e d → X e d)
    → ((d : S) → C d → D d)
    → Ends K X D end
unfolding Ends
weaken-Ends K X D (w, ok a) e f g h = f a w.machine e
weaken-Ends K X D (w, err x) e f g h = g x w.machine e
weaken-Ends K X D (w, dead) e f g h = h w.machine e

pub weaken {ℓ} :
    {S : Type 0} {A : Type ℓ} {d : S} {m : Action S A} {J : A → S → Type 0} {Y : Error → S → Type 0}
    {C : S → Type 0} {K : A → S → Type 0} {X : Error → S → Type 0} {D : S → Type 0}
    → Follows d m J Y C
    → ((a : A) (d' : S) → J a d' → K a d')
    → ((e : Error) (d' : S) → Y e d' → X e d')
    → ((d' : S) → C d' → D d')
    → Follows d m K X D
weaken {m = m} {K = K} {X = X} {D = D} first f g h = record {
  ends = λ w at. weaken-Ends K X D (m w) (first.ends w at) f g h;
}

pub pure_follows {ℓ} :
    {S : Type 0} {A : Type ℓ} {d : S} (a : A) {K : A → S → Type 0} {X : Error → S → Type 0}
    {D : S → Type 0}
    → K a d
    → Follows d (pure a) K X D
unfolding pure Ends
pure_follows a {K = K} k = record { ends = λ w at. subst (K a) (sym at) k }

pub fail_follows {ℓ} :
    {S : Type 0} {A : Type ℓ} {d : S} (e : Error) {K : A → S → Type 0} {X : Error → S → Type 0}
    {D : S → Type 0}
    → X e d
    → Follows d (fail e) K X D
unfolding fail Ends
fail_follows e {X = X} x = record { ends = λ w at. subst (X e) (sym at) x }

act_on-Ends :
    {S : Type 0} (I : S → Type 0) (K : Unit {0} → S → Type 0) (f : S → S) (w : World S)
    (tape : List Answer)
    → I w.machine
    → I (f w.machine)
    → K tt (f w.machine)
    → Ends K (λ e. I) I (act_on f w tape)
unfolding act_on Ends
act_on-Ends I K f w [] before after k = k
act_on-Ends I K f w (done ∷ rest) before after k = k
act_on-Ends I K f w (failed ∷ rest) before after k = before
act_on-Ends I K f w (failed_with text ∷ rest) before after k = before
act_on-Ends I K f w (failed_after ∷ rest) before after k = after
act_on-Ends I K f w (died ∷ rest) before after k = before
act_on-Ends I K f w (died_after ∷ rest) before after k = after

pub act_follows :
    {S : Type 0} {d : S} {I : S → Type 0} (f : S → S) {K : Unit {0} → S → Type 0}
    → I d
    → I (f d)
    → K tt (f d)
    → Keeps d I (act f) K
unfolding act
act_follows {d = d} {I = I} f {K = K} before after k = record {
  ends = λ w at.
      act_on-Ends I K f w w.tape (subst I (sym at) before) (subst (λ d'. I (f d')) (sym at) after)
        (subst (λ d'. K tt (f d')) (sym at) k);
}

pub puts_follows :
    {S : Type 0} {d : S} (f : S → S) {K : Unit {0} → S → Type 0} {X : Error → S → Type 0}
    {D : S → Type 0}
    → K tt (f d)
    → Follows d (puts f) K X D
unfolding puts Ends
puts_follows f {K = K} k = record { ends = λ w at. subst (λ d'. K tt (f d')) (sym at) k }

pub gets_follows {ℓ} :
    {S : Type 0} {A : Type ℓ} {d : S} (f : S → A) {K : A → S → Type 0} {X : Error → S → Type 0}
    {D : S → Type 0}
    → K (f d) d
    → Follows d (gets f) K X D
unfolding gets Ends
gets_follows f {K = K} k = record { ends = λ w at. subst (λ d'. K (f d') d') (sym at) k }
