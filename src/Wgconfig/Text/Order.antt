-- ===== src/Wgconfig/Text/Order.antt =====
-- Equality and order of texts, and lists of texts in increasing order.
use nft_firewall_v.Prelude.{
  ℕ, Bool, true, false, not, ◌&&◌, ◌≡◌, refl, subst, List, [], ◌∷◌, ◌==◌, arith, Bool-cases, inl,
  inr, &&-eq-true, ==_iff,
}
use nft_firewall_v.Wgconfig.Text.{text_eq, text_lt, has}

pub text_eq_refl : (t : List ℕ) → text_eq t t ≡ true
unfolding text_eq
text_eq_refl [] = refl
text_eq_refl (c ∷ cs) = ground (arith, text_eq_refl cs)

pub text_eq_sound : (t s : List ℕ) → text_eq t s ≡ true → t ≡ s
unfolding text_eq
text_eq_sound [] [] h = refl
text_eq_sound [] (d ∷ ds) h = cc
text_eq_sound (c ∷ cs) [] h = cc
text_eq_sound (c ∷ cs) (d ∷ ds) h =
    let parts = &&-eq-true (c == d) (text_eq cs ds) h in
    λ i. (==_iff c d).0 parts.0 i ∷ text_eq_sound cs ds parts.1 i

pub text_lt-not_eq : (t s : List ℕ) → text_lt t s ≡ true → text_eq s t ≡ false
unfolding text_eq text_lt
text_lt-not_eq [] [] h = cc
text_lt-not_eq [] (d ∷ ds) h = refl
text_lt-not_eq (c ∷ cs) [] h = refl
text_lt-not_eq (c ∷ cs) (d ∷ ds) h = ground (arith, text_lt-not_eq cs ds)

pub text_lt_asym : (t s : List ℕ) → text_lt t s ≡ true → text_lt s t ≡ false
unfolding text_lt
text_lt_asym [] [] h = cc
text_lt_asym [] (d ∷ ds) h = refl
text_lt_asym (c ∷ cs) [] h = cc
text_lt_asym (c ∷ cs) (d ∷ ds) h = ground (arith, text_lt_asym cs ds)

pub text_lt_trans : (t s u : List ℕ) → text_lt t s ≡ true → text_lt s u ≡ true → text_lt t u ≡ true
unfolding text_lt
text_lt_trans [] s [] h k = ground (arith)
text_lt_trans [] s (e ∷ es) h k = refl
text_lt_trans (c ∷ cs) [] u h k = cc
text_lt_trans (c ∷ cs) (d ∷ ds) [] h k = cc
text_lt_trans (c ∷ cs) (d ∷ ds) (e ∷ es) h k = ground (arith, text_lt_trans cs ds es)

pub text_lt_total : (t s : List ℕ) → text_lt t s ≡ false → text_eq s t ≡ false → text_lt s t ≡ true
unfolding text_lt text_eq
text_lt_total [] [] h k = cc
text_lt_total [] (d ∷ ds) h k = cc
text_lt_total (c ∷ cs) [] h k = refl
text_lt_total (c ∷ cs) (d ∷ ds) h k = ground (arith, text_lt_total cs ds)

unfoldable pub all_above : List ℕ → List (List ℕ) → Bool
all_above t [] = true
all_above t (s ∷ ss) = text_lt t s && all_above t ss

-- Each text is before all that follow it.
unfoldable pub increasing : List (List ℕ) → Bool
unfolding all_above
increasing [] = true
increasing (t ∷ ts) = all_above t ts && increasing ts

pub all_above_trans :
    (t s : List ℕ) (us : List (List ℕ))
    → text_lt t s ≡ true
    → all_above s us ≡ true
    → all_above t us ≡ true
unfolding all_above
all_above_trans t s [] h k = refl
all_above_trans t s (u ∷ us) h k =
    let parts = &&-eq-true (text_lt s u) (all_above s us) k in
    rw (text_lt_trans t s u h parts.0) (all_above_trans t s us h parts.1)

-- What a loop with a map of the texts seen so far accepts.
unfoldable pub distinct : List (List ℕ) → List (List ℕ) → Bool
unfolding has
distinct seen [] = true
distinct seen (t ∷ ts) = not (has t seen) && distinct (t ∷ seen) ts

seen_not_new :
    (seen : List (List ℕ)) (t : List ℕ) (ts : List (List ℕ))
    → has t seen ≡ true
    → distinct seen ts ≡ true
    → has t ts ≡ false
unfolding has distinct
seen_not_new seen t [] h d = refl
seen_not_new seen t (u ∷ us) h d =
    let parts = &&-eq-true (not (has u seen)) (distinct (u ∷ seen) us) d in
    let rest = seen_not_new (u ∷ seen) t us (ground (arith, h)) parts.1 in
    elim (Bool-cases (text_eq t u)) [
      | inl e ↦
          let k = subst (λ x. has x seen ≡ true) (text_eq_sound t u e) h in
          ground (arith, k, parts.0)
      | inr e ↦ rw e rest
    ]

pub distinct_head :
    (seen : List (List ℕ)) (t : List ℕ) (ts : List (List ℕ))
    → distinct seen (t ∷ ts) ≡ true
    → (has t ts ≡ false) × (distinct (t ∷ seen) ts ≡ true)
unfolding distinct has
distinct_head seen t ts d =
    let parts = &&-eq-true (not (has t seen)) (distinct (t ∷ seen) ts) d in
    (seen_not_new (t ∷ seen) t ts (rw (text_eq_refl t) refl) parts.1, parts.1)

-- Every text that was seen is before all that are to come.
unfoldable pub all_below : List (List ℕ) → List (List ℕ) → Bool
all_below [] ts = true
all_below (s ∷ ss) ts = all_above s ts && all_below ss ts

below_not_seen :
    (seen : List (List ℕ)) (t : List ℕ) (ts : List (List ℕ))
    → all_below seen (t ∷ ts) ≡ true
    → (has t seen ≡ false) × (all_below seen ts ≡ true)
unfolding all_below all_above has
below_not_seen [] t ts h = (refl, refl)
below_not_seen (s ∷ ss) t ts h =
    let parts = &&-eq-true (text_lt s t && all_above s ts) (all_below ss (t ∷ ts)) h in
    let first = &&-eq-true (text_lt s t) (all_above s ts) parts.0 in
    let rest = below_not_seen ss t ts parts.1 in
    (rw (text_lt-not_eq s t first.0) rest.0, rw first.1 rest.1)

pub increasing-distinct :
    (seen ts : List (List ℕ))
    → all_below seen ts ≡ true
    → increasing ts ≡ true
    → distinct seen ts ≡ true
unfolding increasing distinct all_below
increasing-distinct seen [] h k = refl
increasing-distinct seen (t ∷ ts) h k =
    let parts = &&-eq-true (all_above t ts) (increasing ts) k in
    let below = below_not_seen seen t ts h in
    rw below.0 (increasing-distinct (t ∷ seen) ts (rw parts.0 below.1) parts.1)
