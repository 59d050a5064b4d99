-- ===== src/Threatintel/Accepted.antt =====
-- What `Validate` and `Parse` of internal/threatintel/feed.go accept, and that they end.
use nft_firewall_v.Prelude.{
  ℕ, true, false, not, ◌≡◌, refl, List, [], ◌∷◌, Option, none, some, Outcome, ok, err, All-mono,
  arith, All, WhenOk, ok_holds, err_holds, refusal_holds, step_holds, not-eq-false, guard_against,
  ◌>>=◌, ◌>>◌,
}
use nft_firewall_v.Threatintel.Coverage.{
  NetIp, FeedError, Tally, validate_aggregate_coverage, not_allowed, protected_invalid,
}
use nft_firewall_v.Threatintel.Coverage.Bounded.{
  IsBounded, IsCounted, validate_aggregate_coverage-IsBounded,
}
use nft_firewall_v.Threatintel.{
  is_public_feed_prefix, parse_entry, read_addresses, read_protected, overlaps_kept, any_overlaps,
  read_feed, settle_coverage, count_feed, validate_feed,
}

All-both {ℓ κ μ} :
    {A : Type ℓ} (P : A → Type κ) (Q : A → Type μ) (xs : List A)
    → All P xs
    → All Q xs
    → All (λ x. P x × Q x) xs
All-both P Q [] h k = tt
All-both P Q (x ∷ xs) h k = ((h.0, k.0), All-both P Q xs h.1 k.1)

module _ (N : NetIp) where
  keep_one :
      (Q : N.Prefix → Type 0) (raw : List ℕ) (raws : List (List ℕ)) (parsed : Option N.Prefix)
      → parse_entry N raw ≡ parsed
      → WhenOk
          (λ ps.
            All Q ps
            → All (λ raw. (p : N.Prefix) × (parse_entry N raw ≡ some p) × Q (N.masked p)) raws)
          (read_protected N raws)
      → WhenOk
          (λ ps.
            All Q ps
            → All
                (λ raw. (p : N.Prefix) × (parse_entry N raw ≡ some p) × Q (N.masked p))
                (raw ∷ raws))
          (elim parsed [
            | none ↦ err protected_invalid
            | some p ↦ read_protected N raws >>= λ ps. ok (N.masked p ∷ ps)
          ])
  keep_one Q raw raws none e h = err_holds
  keep_one Q raw raws (some p) e h =
      step_holds (read_protected N raws) (λ ps m. ok_holds (λ k. ((p, e, k.0), h.known ps m k.1)))

  read_one :
      (Q : N.Prefix → Type 0) (raw : List ℕ) (raws : List (List ℕ)) (parsed : Option N.Prefix)
      → parse_entry N raw ≡ parsed
      → WhenOk
          (λ ps.
            All Q ps
            → All
                (λ raw.
                  (p : N.Prefix) × (parse_entry N raw ≡ some p)
                  × (is_public_feed_prefix N p ≡ true)
                  × Q (N.masked p))
                raws)
          (read_addresses N raws)
      → WhenOk
          (λ ps.
            All Q ps
            → All
                (λ raw.
                  (p : N.Prefix) × (parse_entry N raw ≡ some p)
                  × (is_public_feed_prefix N p ≡ true)
                  × Q (N.masked p))
                (raw ∷ raws))
          (elim parsed [
            | none ↦ err not_allowed
            | some p ↦
                guard_against (not (is_public_feed_prefix N p)) not_allowed
                >> (read_addresses N raws >>= λ ps. ok (N.masked p ∷ ps))
          ])
  read_one Q raw raws none e h = err_holds
  read_one Q raw raws (some p) e h = refusal_holds _ _ (λ public.
      step_holds (read_addresses N raws)
        (λ ps m. ok_holds (λ k. ((p, e, not-eq-false _ public, k.0), h.known ps m k.1))))

  -- What a test of the masked prefixes finds holds of the texts.
  addresses_read :
      (Q : N.Prefix → Type 0) (raws : List (List ℕ))
      → WhenOk
          (λ ps.
            All Q ps
            → All
                (λ raw.
                  (p : N.Prefix) × (parse_entry N raw ≡ some p)
                  × (is_public_feed_prefix N p ≡ true)
                  × Q (N.masked p))
                raws)
          (read_addresses N raws)
  unfolding read_addresses
  addresses_read Q [] = ok_holds (λ h. tt)
  addresses_read Q (raw ∷ raws) =
      read_one Q raw raws (parse_entry N raw) refl (addresses_read Q raws)

  protected_read :
      (Q : N.Prefix → Type 0) (raws : List (List ℕ))
      → WhenOk
          (λ ps.
            All Q ps
            → All (λ raw. (p : N.Prefix) × (parse_entry N raw ≡ some p) × Q (N.masked p)) raws)
          (read_protected N raws)
  unfolding read_protected
  protected_read Q [] = ok_holds (λ h. tt)
  protected_read Q (raw ∷ raws) =
      keep_one Q raw raws (parse_entry N raw) refl (protected_read Q raws)

  kept_apart :
      (p : N.Prefix) (kept : List N.Prefix)
      → overlaps_kept N p kept ≡ false
      → All (λ keep. N.overlaps p keep ≡ false) kept
  unfolding overlaps_kept
  kept_apart p [] h = tt
  kept_apart p (keep ∷ rest) h = (ground (arith, h), kept_apart p rest (ground (arith, h)))

  all_apart :
      (ps kept : List N.Prefix)
      → any_overlaps N ps kept ≡ false
      → All (λ p. All (λ keep. N.overlaps p keep ≡ false) kept) ps
  unfolding any_overlaps
  all_apart [] kept h = tt
  all_apart (p ∷ ps) kept h =
      (kept_apart p kept (ground (arith, h)), all_apart ps kept (ground (arith, h)))

  -- The prefix overlaps none of those that are protected.
  unfoldable pub IsApart : List (List ℕ) → N.Prefix → Type 0
  IsApart protected p =
      All
        (λ raw.
          (keep : N.Prefix) × (parse_entry N raw ≡ some keep)
          × (N.overlaps p (N.masked keep) ≡ false))
        protected

  -- An entry is a public prefix, no wider than an entry may be, that overlaps nothing that is
  -- protected and is counted.
  unfoldable pub IsAllowed : List N.Prefix → List (List ℕ) → List ℕ → Type 0
  IsAllowed kept protected raw =
      (p : N.Prefix) × (parse_entry N raw ≡ some p)
      × (is_public_feed_prefix N p ≡ true)
      × (IsApart protected (N.masked p) × IsCounted N kept (N.masked (N.masked p)))

  Reads : List (List ℕ) → List (List ℕ) → List N.Prefix → Type 1
  Reads addresses protected ps =
      ((Q : N.Prefix → Type 0)
        → All Q ps
        → All
            (λ raw.
              (p : N.Prefix) × (parse_entry N raw ≡ some p)
              × (is_public_feed_prefix N p ≡ true)
              × Q (N.masked p))
            addresses)
      × All (IsApart protected) ps

  read_feed-Reads :
      (addresses protected : List (List ℕ))
      → WhenOk (Reads addresses protected) (read_feed N addresses protected)
  unfolding read_feed Reads IsApart
  read_feed-Reads addresses protected = step_holds (read_addresses N addresses) (λ ps e.
      step_holds (read_protected N protected) (λ kept f.
        refusal_holds (any_overlaps N ps kept) _ (λ apart. ok_holds (
          λ Q h. (addresses_read Q addresses).known ps e h,
          All-mono
              (λ p h. (protected_read (λ keep. N.overlaps p keep ≡ false) protected).known kept f h)
              ps (all_apart ps kept apart),
        ))))

  counted_feed :
      (ps : List N.Prefix) (addresses protected : List (List ℕ))
      → Reads addresses protected ps
      → ((p : N.Prefix) → N.same p p ≡ true)
      → (coverage : Option (Outcome FeedError (Tally N)))
      → validate_aggregate_coverage N ps ≡ coverage
      → settle_coverage N coverage ≡ some (ok tt)
      → (kept : List N.Prefix) × IsBounded N kept × All (IsAllowed kept protected) addresses
  unfolding Reads IsAllowed settle_coverage
  counted_feed ps addresses protected h same none e k = absurd (cc)
  counted_feed ps addresses protected h same (some (err x)) e k = absurd (cc)
  counted_feed ps addresses protected h same (some (ok last)) e k =
      let (bounded, all) = validate_aggregate_coverage-IsBounded N same ps last e in
      (
        last.seen,
        bounded,
        h.0 (λ p. IsApart protected p × IsCounted N last.seen (N.masked p))
            (All-both _ _ ps h.1 all),
      )

  -- What is left of `Validate` after the entries were read.
  checked_feed :
      (reading : Outcome FeedError (List N.Prefix)) (addresses protected : List (List ℕ))
      → WhenOk (Reads addresses protected) reading
      → ((p : N.Prefix) → N.same p p ≡ true)
      → count_feed N reading ≡ some (ok tt)
      → (kept : List N.Prefix) × IsBounded N kept × All (IsAllowed kept protected) addresses
  unfolding Reads count_feed
  checked_feed (err e) addresses protected h same k = absurd (cc)
  checked_feed (ok ps) addresses protected h same k =
      counted_feed ps addresses protected (h.known ps refl) same (validate_aggregate_coverage N ps)
        refl k

-- Where `Validate` accepts a feed, each entry is a prefix of public addresses that is no wider than
-- an entry may be and overlaps none of the protected prefixes; and there is a list of prefixes that
-- contains each entry or one that contains it, whose IPv4 prefixes cover at most 2^20 addresses and
-- whose IPv6 prefixes cover at most 2^92. A prefix is assumed to be the same as itself.
pub validate_feed-IsAllowed :
    (N : NetIp) (same : (p : N.Prefix) → N.same p p ≡ true) (addresses protected : List (List ℕ))
    → validate_feed N addresses protected ≡ some (ok tt)
    → (kept : List N.Prefix) × IsBounded N kept × All (IsAllowed N kept protected) addresses
unfolding validate_feed
validate_feed-IsAllowed N same addresses protected h =
    checked_feed N (read_feed N addresses protected) addresses protected
      (read_feed-Reads N addresses protected) same h
