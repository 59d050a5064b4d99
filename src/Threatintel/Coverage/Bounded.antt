-- ===== src/Threatintel/Coverage/Bounded.antt =====
-- What `validateAggregateCoverage` (internal/threatintel/feed.go) accepts covers a bounded number of
-- addresses.
use nft_firewall_v.Prelude.{
  ℕ, ◌+◌, ◌≤◌, ◌^◌, Bool, true, false, ◌≡◌, ◌⊎◌, inl, inr, refl, sym, subst, List, [], ◌∷◌, none,
  some, Outcome, ok, err, some-injective, if◌then◌else◌, ◌==◌, ltb, arith, Bool-cases, All, WhenOk,
  WhenOk-mono, ok_holds, err_holds, if_holds,
}
use nft_firewall_v.Threatintel.Coverage.{
  NetIp, FeedError, has_prefix, family_of, prefix_less, insert_prefix, sort_prefixes, Tally,
  covered, cover, limit_of, add_size, cover_each, validate_aggregate_coverage,
}
use nft_firewall_v.Threatintel.Coverage.Loops.{HasAncestor, size_of, Round, cover_prefix-ends}

limited :
    (four : Bool) (a b x y s : ℕ)
    → a ≡ x
    → b ≡ y
    → x ≤ 2 ^ 20
    → y ≤ 2 ^ 92
    → ltb
        (if four then 2 ^ 20 else 2 ^ 92)
        (if four then (if four then a + s else a) else (if four then b else b + s))
      ≡ false
    → ((if four then a + s else a) ≡ (if four then x + s else x))
      × ((if four then b else b + s) ≡ (if four then y else y + s))
      × ((if four then x + s else x) ≤ 2 ^ 20)
      × ((if four then y else y + s) ≤ 2 ^ 92)
limited true a b x y s e f h k m = (omega (arith, e), f, ground (arith, e, m), k)
limited false a b x y s e f h k m = (e, omega (arith, f), h, ground (arith, f, m))

module _ (N : NetIp) where
  -- The sizes of the prefixes of a family, added up.
  unfoldable pub total4 : List N.Prefix → ℕ
  unfolding family_of
  total4 [] = 0
  total4 (p ∷ ps) = let rest = total4 ps in if family_of N p == 32 then rest + size_of N p else rest

  unfoldable pub total6 : List N.Prefix → ℕ
  unfolding family_of
  total6 [] = 0
  total6 (p ∷ ps) = let rest = total6 ps in if family_of N p == 32 then rest else rest + size_of N p

  -- The prefix was counted, or one that contains it was.
  unfoldable pub IsCounted : List N.Prefix → N.Prefix → Type 0
  IsCounted seen p = (has_prefix N p seen ≡ true) ⊎ HasAncestor N seen p

  unfoldable pub IsBounded : List N.Prefix → Type 0
  IsBounded seen = (total4 seen ≤ 2 ^ 20) × (total6 seen ≤ 2 ^ 92)

  Counts : Tally N → Type 0
  Counts c = (c.covered4 ≡ total4 c.seen) × (c.covered6 ≡ total6 c.seen) × IsBounded c.seen

  IsCounted-more :
      (seen : List N.Prefix) (q p : N.Prefix) → IsCounted seen p → IsCounted (q ∷ seen) p
  unfolding IsCounted has_prefix HasAncestor
  IsCounted-more seen q p (inl h) = inl (ground (arith, h))
  IsCounted-more seen q p (inr (bits, h, k, m)) = inr (bits, h, k, ground (arith, m))

  add_size-Counts :
      (p : N.Prefix) (c : Tally N)
      → Counts c
      → WhenOk (λ next. Counts next × (next.seen ≡ (p ∷ c.seen))) (add_size N p c (size_of N p))
  unfolding add_size cover covered limit_of Counts IsBounded total4 total6
  add_size-Counts p c (e, f, (h, k)) =
      if_holds
        (ltb (limit_of (family_of N p)) (covered N (family_of N p) (cover N p (size_of N p) c)))
        (λ over. err_holds)
        (λ within.
          let (a, b, x, y) =
            limited (family_of N p == 32) c.covered4 c.covered6 (total4 c.seen) (total6 c.seen)
              (size_of N p) e f h k within in
          ok_holds ((a, b, (x, y)), refl))

  -- What a loop leaves that does not refuse.
  Settled : List N.Prefix → Tally N → Outcome FeedError (Tally N) → Type 0
  Settled ps c (err e) = Unit
  Settled ps c (ok last) =
      Counts last
      × All (λ p. IsCounted last.seen (N.masked p)) ps
      × ((q : N.Prefix) → IsCounted c.seen q → IsCounted last.seen q)

  module _ (reflexive : (p : N.Prefix) → N.same p p ≡ true) where
    Round-Counts :
        (p : N.Prefix) (c : Tally N) (outcome : Outcome FeedError (Tally N))
        → Counts c
        → Round N p c outcome
        → WhenOk
            (λ next.
              Counts next
              × IsCounted next.seen p
              × ((q : N.Prefix) → IsCounted c.seen q → IsCounted next.seen q))
            outcome
    unfolding Round IsCounted has_prefix
    Round-Counts p c outcome h (inl (found, e)) =
        subst (WhenOk _) (sym e) (ok_holds (h, inr found, λ q k. k))
    Round-Counts p c outcome h (inr e) = subst (WhenOk _) (sym e) (
        WhenOk-mono
          (λ next k. (
            k.0,
            subst (λ s. IsCounted s p) (sym k.1) (inl (rw (reflexive p) refl)),
            λ q m. subst (λ s. IsCounted s q) (sym k.1) (IsCounted-more c.seen p q m),
          ))
          (add_size-Counts p c h))

    joined :
        (p : N.Prefix) (ps : List N.Prefix) (c next : Tally N)
        (outcome : Outcome FeedError (Tally N))
        → IsCounted next.seen (N.masked p)
        → ((q : N.Prefix) → IsCounted c.seen q → IsCounted next.seen q)
        → Settled ps next outcome
        → Settled (p ∷ ps) c outcome
    unfolding Settled
    joined p ps c next (err e) h k m = tt
    joined p ps c next (ok last) h k (m, n, o) = (m, (o (N.masked p) h, n), λ q r. o q (k q r))

    goes_on :
        (p : N.Prefix) (ps : List N.Prefix) (c : Tally N)
        (first outcome : Outcome FeedError (Tally N))
        → WhenOk
            (λ next.
              Counts next
              × IsCounted next.seen (N.masked p)
              × ((q : N.Prefix) → IsCounted c.seen q → IsCounted next.seen q))
            first
        → elim (some first) [
          | none ↦ none
          | some (err e) ↦ some (err e)
          | some (ok next) ↦ cover_each N ps next
        ]
          ≡ some outcome
        → ((next : Tally N)
            → Counts next
            → cover_each N ps next ≡ some outcome
            → Settled ps next outcome)
        → Settled (p ∷ ps) c outcome
    unfolding Settled
    goes_on p ps c (err e) outcome h m rest = subst (Settled (p ∷ ps) c) (some-injective m) tt
    goes_on p ps c (ok next) outcome h m rest =
        let (counts, found, kept) = h.known next refl in
        joined p ps c next outcome found kept (rest next counts m)

    cover_each-Settled :
        (ps : List N.Prefix) (c : Tally N)
        → Counts c
        → (outcome : Outcome FeedError (Tally N)) → cover_each N ps c ≡ some outcome
        → Settled ps c outcome
    unfolding cover_each Settled
    cover_each-Settled [] c h outcome e = subst (Settled [] c) (some-injective e) (h, tt, λ q k. k)
    cover_each-Settled (p ∷ ps) c h outcome e =
        let (first, f, round) = cover_prefix-ends N (N.masked p) c in
        goes_on p ps c first outcome (Round-Counts (N.masked p) c first h round)
          (rw (cover_each, f) at e) (λ next k m. cover_each-Settled ps next k outcome m)

    all_inserted :
        (P : N.Prefix → Type 0) (p : N.Prefix) (qs : List N.Prefix)
        → All P (insert_prefix N p qs)
        → P p × All P qs
    unfolding insert_prefix
    all_inserted P p [] h = h
    all_inserted P p (q ∷ qs) h = elim (Bool-cases (prefix_less N q p)) [
      | inl e ↦
          let k : All P (q ∷ insert_prefix N p qs) =
            subst (λ b. All P (if b then q ∷ insert_prefix N p qs else p ∷ q ∷ qs)) e h in
          let rest = all_inserted P p qs k.1 in (rest.0, (k.0, rest.1))
      | inr e ↦ subst (λ b. All P (if b then q ∷ insert_prefix N p qs else p ∷ q ∷ qs)) e h
    ]

    all_sorted :
        (P : N.Prefix → Type 0) (ps : List N.Prefix) → All P (sort_prefixes N ps) → All P ps
    unfolding sort_prefixes
    all_sorted P [] h = tt
    all_sorted P (p ∷ ps) h =
        let parts = all_inserted P p (sort_prefixes N ps) h in (parts.0, all_sorted P ps parts.1)

    -- Where the prefixes are accepted, each was counted, or one that contains it was, and the sizes
    -- of what was counted come to no more than the limits.
    pub validate_aggregate_coverage-IsBounded :
        (ps : List N.Prefix) (last : Tally N)
        → validate_aggregate_coverage N ps ≡ some (ok last)
        → IsBounded last.seen × All (λ p. IsCounted last.seen (N.masked p)) ps
    unfolding validate_aggregate_coverage Settled Counts total4 total6 IsBounded
    validate_aggregate_coverage-IsBounded ps last h =
        let (counts, all, kept) =
          cover_each-Settled (sort_prefixes N ps) _ (refl, refl, (omega arith, omega arith))
            (ok last) h in
        (counts.2, all_sorted (λ p. IsCounted last.seen (N.masked p)) ps all)
