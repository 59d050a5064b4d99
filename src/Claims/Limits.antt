-- ===== src/Claims/Limits.antt =====
-- The limit on the claims, and what a replacement leaves.
pub mod Replaced
pub mod Undone
use nft_firewall_v.Prelude.{
  ℕ, ◌+◌, ◌≤◌, ◌<◌, String, Bool, true, false, ◌≡◌, ◌∙◌, refl, sym, subst, Option, none, some, List,
  [], ◌∷◌, ◌++◌, if◌then◌else◌, ltb, leb, str_eq, str_lt, eq_iff, length, arith, Bool-cases, inl,
  inr,
}
use nft_firewall_v.Effects.{Answer, World, Result, ok, Action}
use nft_firewall_v.Effects.Logic.{Keeps, weaken, succeeds}
use nft_firewall_v.Claims.Types.{Formats, Claim, Db, is_active, lives, active_count}
use nft_firewall_v.Claims.Session.{Session}
use nft_firewall_v.Claims.Session.Steps.{dirtied, Durable}
use nft_firewall_v.Claims.Writes.{
  insert_claim, delete_claims, without, has_source, with_defaults, add_claim_bounded,
}
use nft_firewall_v.Claims.Replace.{
  canonical, sort_strings, insert_each, claim_of, claims_of, replace_source_claims_bounded,
}
use nft_firewall_v.Claims.Publication.{expired, is_expired}
use nft_firewall_v.Claims.Ends.{Fits, add_claim_bounded_ends}
use nft_firewall_v.Claims.Ends.Published.{replaced, replace_source_claims_bounded_ends}

-- One for a claim that never expires.
lasts : Option String → ℕ
lasts none = 1
lasts (some t) = 0

-- The claims that never expire: those are active at every time.
unfoldable pub permanent_count : List Claim → ℕ
unfolding lasts
permanent_count [] = 0
permanent_count (c ∷ cs) = lasts c.expires_at + permanent_count cs

-- The addresses of one source, in the order of the rows.
unfoldable pub addresses_of : String → List Claim → List String
addresses_of source [] = []
addresses_of source (c ∷ cs) =
    let rest = addresses_of source cs in if has_source source c then c.address ∷ rest else rest

lasts_active :
    (f : Formats) (now : ℕ) (e : Option String) (n m : ℕ)
    → m ≤ n
    → lasts e + m ≤ (if lives f now e then 1 + n else n)
unfolding lasts lives
lasts_active f now none n m h = omega (arith, h)
lasts_active f now (some t) n m h = ground arith

permanent_count-active_count :
    (f : Formats) (now : ℕ) (cs : List Claim) → permanent_count cs ≤ active_count f now cs
unfolding permanent_count active_count is_active
permanent_count-active_count f now [] = omega arith
permanent_count-active_count f now (c ∷ cs) =
    lasts_active f now c.expires_at _ _ (permanent_count-active_count f now cs)

permanent_count-append :
    (cs ds : List Claim) → permanent_count (cs ++ ds) ≡ permanent_count cs + permanent_count ds
unfolding permanent_count
permanent_count-append [] ds = omega arith
permanent_count-append (c ∷ cs) ds = omega (arith, permanent_count-append cs ds)

lasts_one : (e : Option String) → lasts e ≤ 1
unfolding lasts
lasts_one none = omega arith
lasts_one (some t) = omega arith

pub permanent_count-insert_claim :
    (c : Claim) (d : Db) → permanent_count (insert_claim c d).claims ≤ permanent_count d.claims + 1
unfolding insert_claim permanent_count
permanent_count-insert_claim c d = omega (
  arith,
  permanent_count-append d.claims (record c { id = d.last_id + 1 } ∷ []),
  lasts_one c.expires_at,
)

pub permanent_count-insert_each :
    (cs : List Claim) (d : Db)
    → permanent_count (insert_each cs d).claims ≤ permanent_count d.claims + length cs
unfolding insert_each
permanent_count-insert_each [] d = omega arith
permanent_count-insert_each (c ∷ cs) d =
    omega
      (arith, permanent_count-insert_each cs (insert_claim c d), permanent_count-insert_claim c d)

pub length-claims_of :
    (f : Formats) (source reason actor : String) (now : ℕ) (values : List String)
    → length (claims_of f source reason actor now values) ≡ length values
unfolding claims_of
length-claims_of f source reason actor now [] = refl
length-claims_of f source reason actor now (v ∷ vs) =
    omega (arith, length-claims_of f source reason actor now vs)

one_more :
    (f : Formats) (now : ℕ) (e : Option String) (c : Claim) (left : List Claim) (n : ℕ)
    → length left ≡ n
    → length (if expired f now e then left else c ∷ left) ≡ (if lives f now e then 1 + n else n)
unfolding expired lives
one_more f now none c left n h = omega (arith, h)
one_more f now (some t) c left n h = elim (Bool-cases (str_lt (f.time_text now) t)) [
  | inl k ↦ rw k (omega (arith, h))
  | inr k ↦ rw k h
]

-- A purge leaves what is active.
pub length-without_expired :
    (f : Formats) (now : ℕ) (cs : List Claim)
    → length (without (is_expired f now) cs) ≡ active_count f now cs
unfolding without is_expired expired active_count is_active lives
length-without_expired f now [] = refl
length-without_expired f now (c ∷ cs) =
    one_more f now c.expires_at c (without (is_expired f now) cs) (active_count f now cs)
      (length-without_expired f now cs)

counted_first :
    (f : Formats) (now : ℕ) (c : Claim) (cs : List Claim) (n : ℕ)
    → active_count f now cs ≤ n
    → active_count f now (c ∷ cs) ≤ 1 + n
unfolding active_count
counted_first f now c cs n h = elim (Bool-cases (is_active f now c)) [
  | inl e ↦ rw e (omega (arith, h))
  | inr e ↦ rw e (omega (arith, h))
]

active_count_last :
    (f : Formats) (now : ℕ) (cs : List Claim) (c : Claim)
    → active_count f now (cs ++ (c ∷ [])) ≤ active_count f now cs + 1
unfolding active_count
active_count_last f now [] c = counted_first f now c [] 0 (omega arith)
active_count_last f now (d ∷ cs) c = elim (Bool-cases (is_active f now d)) [
  | inl e ↦ rw e (omega (arith, active_count_last f now cs c))
  | inr e ↦ rw e (active_count_last f now cs c)
]

pub active_count-insert_each :
    (f : Formats) (now : ℕ) (cs : List Claim) (d : Db)
    → active_count f now (insert_each cs d).claims ≤ active_count f now d.claims + length cs
unfolding insert_each insert_claim
active_count-insert_each f now [] d = omega arith
active_count-insert_each f now (c ∷ cs) d = omega (
  arith,
  active_count-insert_each f now cs (insert_claim c d),
  active_count_last f now d.claims (record c { id = d.last_id + 1 }),
)

positive_ltb : (n : ℕ) → 0 < n → ltb 0 n ≡ true
positive_ltb n h = ground arith

-- The limit, where it was kept at the count.
pub Fits-permanent_count :
    (f : Formats) (max now more : ℕ) (d : Db)
    → 0 < max
    → Fits f max now more d
    → permanent_count d.claims + more ≤ max
unfolding Fits
Fits-permanent_count f max now more d positive fits =
    ground (arith, permanent_count-active_count f now d.claims, fits (positive_ltb max positive))

pub Fits-active_count :
    (f : Formats) (max now more : ℕ) (d : Db)
    → 0 < max
    → Fits f max now more d
    → active_count f now d.claims + more ≤ max
unfolding Fits
Fits-active_count f max now more d positive fits = ground (arith, fits (positive_ltb max positive))
