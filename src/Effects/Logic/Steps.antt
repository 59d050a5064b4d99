-- ===== src/Effects/Logic/Steps.antt =====
-- Rules for the steps of a block, and what a step says of the world that it returns.
use nft_firewall_v.Prelude.{
  ℕ, String, Bool, true, false, ◌≡◌, refl, sym, subst, List, [], ◌∷◌, if◌then◌else◌,
}
use nft_firewall_v.Effects.{
  Error, refused, Result, ok, err, dead, World, Action, pure, fail, ◌>>=◌, gets, act, ask, clock,
  tick_on, refuse_when,
}
use nft_firewall_v.Effects.Logic.Rules.{
  Ends, Follows, Keeps, Reads, follows, weaken, pure_follows, fail_follows, act_follows,
  gets_follows,
}

-- The same for the first step of a block.
pub reads_then {ℓ κ} :
    {S : Type 0} {A : Type ℓ} {B : Type κ} {d : S} {I : S → Type 0} {F : A → Type 0}
    {K : B → S → Type 0} {m : Action S A} {k : A → Action S B}
    → I d
    → Reads d m F
    → ((a : A) → F a → Keeps d I (k a) K)
    → Keeps d I (m >>= k) K
reads_then {d = d} {I = I} {K = K} {k = k} i first rest =
    follows
      (weaken {K = λ a d'. (d' ≡ d) × _} {X = λ e. I} {D = I} first (λ a d' h. h)
        (λ e d' h. subst I (sym h) i) (λ d' h. subst I (sym h) i))
      (λ a d' (h, f). subst (λ d''. Keeps d'' I (k a) K) (sym h) (rest a f))

pub acts_then {ℓ} :
    {S : Type 0} {B : Type ℓ} {d : S} {I : S → Type 0} (f : S → S) {K : B → S → Type 0}
    {k : Unit {0} → Action S B}
    → I d
    → I (f d)
    → ((u : Unit {0}) → Keeps (f d) I (k u) K)
    → Keeps d I (act f >>= k) K
acts_then {d = d} {I = I} f {K = K} {k = k} before after rest =
    follows {J = λ u d'. d' ≡ f d} (act_follows f before after refl)
      (λ u d' h. subst (λ d''. Keeps d'' I (k u) K) (sym h) (rest u))

pub asks_then {ℓ} :
    {S : Type 0} {B : Type ℓ} {d : S} {I : S → Type 0} {K : B → S → Type 0}
    {k : Unit {0} → Action S B}
    → I d
    → ((u : Unit {0}) → Keeps d I (k u) K)
    → Keeps d I (ask >>= k) K
unfolding ask
asks_then i rest = acts_then (λ m. m) i i rest

pub gets_then {ℓ} :
    {S : Type 0} {A : Type 0} {B : Type ℓ} {d : S} (f : S → A) {K : B → S → Type 0}
    {X : Error → S → Type 0} {D : S → Type 0} {k : A → Action S B}
    → ((a : A) → a ≡ f d → Follows d (k a) K X D)
    → Follows d (gets f >>= k) K X D
gets_then {d = d} f {K = K} {X = X} {D = D} {k = k} rest =
    follows {J = λ a d'. (a ≡ f d) × (d' ≡ d)} (gets_follows f (refl, refl))
      (λ a d' (h, e). subst (λ d''. Follows d'' (k a) K X D) (sym e) (rest a h))

pub refuses_then {ℓ} :
    {S : Type 0} {B : Type ℓ} {d : S} {I : S → Type 0} (b : Bool) (text : String)
    {K : B → S → Type 0} {k : Unit {0} → Action S B}
    → I d
    → (b ≡ false → (u : Unit {0}) → Keeps d I (k u) K)
    → Keeps d I (refuse_when b text >>= k) K
unfolding refuse_when
refuses_then {d = d} {I = I} false text {K = K} {k = k} i rest =
    follows {J = λ u d'. d' ≡ d} (pure_follows tt refl)
      (λ u d' h. subst (λ d''. Keeps d'' I (k u) K) (sym h) (rest refl u))
refuses_then {d = d} {I = I} true text {K = K} {k = k} i rest =
    follows {J = λ u d'. ⊥} (fail_follows (refused text) i) (λ u d'. elim [ ])

-- The last step of a block that only reads.
pub reads_ask : {S : Type 0} (d : S) → Reads d ask (λ u. Unit {0})
unfolding ask
reads_ask d = act_follows (λ m. m) refl refl (refl, tt)

pub reads_pure {ℓ} :
    {S : Type 0} {A : Type ℓ} {d : S} {F : A → Type 0} (a : A) → F a → Reads d (pure a) F
reads_pure a f = pure_follows a (refl, f)

pub reads_fail {ℓ} :
    {S : Type 0} {A : Type ℓ} {d : S} {F : A → Type 0} (e : Error) → Reads d (fail e) F
reads_fail e = fail_follows e refl

pub reads_refusal :
    {S : Type 0} (d : S) (b : Bool) (text : String) → Reads d (refuse_when b text) (λ u. b ≡ false)
unfolding refuse_when
reads_refusal d false text = reads_pure tt refl
reads_refusal d true text = reads_fail (refused text)

tick-Ends :
    {S : Type 0} (d : S) (w : World S) (times : List ℕ)
    → w.machine ≡ d
    → Ends {A = ℕ} (λ t d'. (d' ≡ d) × Unit {0}) (λ e d'. d' ≡ d) (λ d'. d' ≡ d) (tick_on w times)
unfolding Ends tick_on
tick-Ends d w [] at = (at, tt)
tick-Ends d w (t ∷ rest) at = (at, tt)

pub reads_clock : {S : Type 0} (d : S) → Reads d clock (λ t. Unit {0})
unfolding clock
reads_clock d = record { ends = λ w at. tick-Ends d w w.times at }

pub if_follows {ℓ} :
    {S : Type 0} {A : Type ℓ} {d : S} {m n : Action S A} {K : A → S → Type 0}
    {X : Error → S → Type 0} {D : S → Type 0} (b : Bool)
    → (b ≡ true → Follows d m K X D)
    → (b ≡ false → Follows d n K X D)
    → Follows d (if b then m else n) K X D
if_follows true first second = first refl
if_follows false first second = second refl

-- A block whose last step only reads.
pub reads_last {ℓ} :
    {S : Type 0} {A : Type ℓ} {d : S} {I : S → Type 0} {F : A → Type 0} {K : A → S → Type 0}
    {m : Action S A}
    → I d
    → Reads d m F
    → ((a : A) → F a → K a d)
    → Keeps d I m K
reads_last {I = I} {K = K} i first k =
    weaken first (λ a d' (h, f). subst (K a) (sym h) (k a f)) (λ e d' h. subst I (sym h) i)
      (λ d' h. subst I (sym h) i)

pub moved {ℓ} :
    {S : Type 0} {A : Type ℓ} {d d' : S} {m : Action S A} {K : A → S → Type 0}
    {X : Error → S → Type 0} {D : S → Type 0}
    → d' ≡ d
    → Follows d m K X D
    → Follows d' m K X D
moved {m = m} {K = K} {X = X} {D = D} at first = subst (λ q. Follows q m K X D) (sym at) first

-- From a step to the world that the action returns.
Ends-within {ℓ} :
    {S : Type 0} {A : Type ℓ} (I : S → Type 0) (Q : A → S → Type 0) (end : World S × Result A)
    → Ends (λ a d'. I d' × Q a d') (λ e. I) I end
    → I (end.0).machine
unfolding Ends
Ends-within I Q (w, ok a) h = h.0
Ends-within I Q (w, err e) h = h
Ends-within I Q (w, dead) h = h

ok_values {ℓ} : {A : Type ℓ} (b a : A) → ok b ≡ ok a → b ≡ a
ok_values b a h = cc

Ends-ok {ℓ} :
    {S : Type 0} {A : Type ℓ} (K : A → S → Type 0) (X : Error → S → Type 0) (D : S → Type 0)
    (end : World S × Result A) (a : A)
    → Ends K X D end
    → end.1 ≡ ok a
    → K a (end.0).machine
unfolding Ends
Ends-ok K X D (w, ok b) a h at = subst (λ c. K c w.machine) (ok_values b a at) h
Ends-ok K X D (w, err e) a h at = cc
Ends-ok K X D (w, dead) a h at = cc

pub stays {ℓ} :
    {S : Type 0} {A : Type ℓ} {d : S} {I : S → Type 0} {Q : A → S → Type 0} {m : Action S A}
    → Keeps d I m (λ a d'. I d' × Q a d')
    → (w : World S) → w.machine ≡ d
    → I ((m w).0).machine
stays {I = I} {Q = Q} {m = m} all w at = Ends-within I Q (m w) (all.ends w at)

pub succeeds {ℓ} :
    {S : Type 0} {A : Type ℓ} {d : S} {K : A → S → Type 0} {X : Error → S → Type 0} {D : S → Type 0}
    {m : Action S A}
    → Follows d m K X D
    → (w : World S) → w.machine ≡ d
    → (a : A) → (m w).1 ≡ ok a
    → K a ((m w).0).machine
succeeds {K = K} {X = X} {D = D} {m = m} all w at a h = Ends-ok K X D (m w) a (all.ends w at) h
