-- ===== src/Threatintel/Parsed.antt =====
-- `Parse` of internal/threatintel/feed.go ends, and what it returns is within its limit.
use nft_firewall_v.Prelude.{
  ℕ, ◌+◌, ◌≤◌, false, not, ◌≡◌, refl, sym, subst, List, [], ◌∷◌, Option, none, some, Outcome, ok,
  err, ltb, leb, arith, WhenOk, ok_holds, err_holds, refusal_holds, step_holds, if_holds,
  guard_against, length, length-append, ◌>>◌,
}
use nft_firewall_v.Wgconfig.Text.{has, is_empty, size, trim, before, trim_suffix, split, drop_end}
use nft_firewall_v.Threatintel.Coverage.{
  NetIp, FeedError, Tally, validate_aggregate_coverage, invalid_entry, not_public,
}
use nft_firewall_v.Threatintel.Coverage.Loops.{validate_aggregate_coverage-ends}
use nft_firewall_v.Threatintel.{
  feed_limit, is_public_feed_prefix, read_feed, settle_coverage, count_feed, validate_feed,
  add_entry, read_entry, read_raw, read_entries, accept_feed, finish_feed, parse_feed,
}

fits : (max n : ℕ) → ltb max (n + 1) ≡ false → n + 1 ≤ max
fits max n h = ground (arith, h)

-- At most so many entries.
unfoldable pub IsWithin : ℕ → List (List ℕ) → Type 0
IsWithin max result = length result ≤ max

module _ (N : NetIp) (max : ℕ) where
  add_entry-IsWithin :
      (result : List (List ℕ)) (canonical : List ℕ)
      → IsWithin max result
      → WhenOk (IsWithin max) (add_entry N max result canonical)
  unfolding add_entry IsWithin
  add_entry-IsWithin result canonical h =
      if_holds (has canonical result) (λ e. ok_holds h)
        (λ e.
          if_holds (ltb max (length result + 1)) (λ over. err_holds)
            (λ within. ok_holds (
              subst (λ n. n ≤ max) (sym (length-append result (canonical ∷ [])))
                (fits max (length result) within))))

  found_entry :
      (number : ℕ) (result : List (List ℕ)) (parsed : Option N.Prefix)
      → IsWithin max result
      → WhenOk (IsWithin max) (elim parsed [
        | none ↦ err (invalid_entry number)
        | some p ↦
            guard_against (not (is_public_feed_prefix N p)) (not_public number)
            >> add_entry N max result (N.prefix_text (N.masked p))
      ])
  found_entry number result none h = err_holds
  found_entry number result (some p) h =
      refusal_holds _ _ (λ public. add_entry-IsWithin result (N.prefix_text (N.masked p)) h)

  read_raw-IsWithin :
      (number : ℕ) (result : List (List ℕ)) (raw : List ℕ)
      → IsWithin max result
      → WhenOk (IsWithin max) (read_raw N number max result raw)
  unfolding read_raw read_entry
  read_raw-IsWithin number result raw h =
      if_holds (leb 65536 (size raw)) (λ e. err_holds)
        (λ e.
          if_holds (is_empty (trim (before b'#' (trim_suffix 13 raw)))) (λ f. ok_holds h)
            (λ f. found_entry number result _ h))

  read_entries-IsWithin :
      (number : ℕ) (result raws : List (List ℕ))
      → IsWithin max result
      → WhenOk (IsWithin max) (read_entries N number max result raws)
  unfolding read_entries
  read_entries-IsWithin number result [] h = ok_holds h
  read_entries-IsWithin number result (raw ∷ rest) h =
      step_holds (read_raw N number max result raw) (λ next e.
        read_entries-IsWithin (number + 1) next rest
          ((read_raw-IsWithin number result raw h).known next e))

module _ (N : NetIp) where
  settled :
      (coverage : Option (Outcome FeedError (Tally N))) (outcome : Outcome FeedError (Tally N))
      → coverage ≡ some outcome
      → (last : Outcome FeedError (Unit {0})) × (settle_coverage N coverage ≡ some last)
  unfolding settle_coverage
  settled coverage (err e) h = (err e, rw h refl)
  settled coverage (ok c) h = (ok tt, rw h refl)

  count_feed-ends :
      (reading : Outcome FeedError (List N.Prefix))
      → (last : Outcome FeedError (Unit {0})) × (count_feed N reading ≡ some last)
  unfolding count_feed
  count_feed-ends (err e) = (err e, refl)
  count_feed-ends (ok ps) =
      let (outcome, e) = validate_aggregate_coverage-ends N ps in
      settled (validate_aggregate_coverage N ps) outcome e

  validate_feed-ends :
      (result : List (List ℕ))
      → (last : Outcome FeedError (Unit {0})) × (validate_feed N result [] ≡ some last)
  unfolding validate_feed
  validate_feed-ends result = count_feed-ends (read_feed N result [])

  -- What `Parse` gives: an error, or a list within the limit that `Validate` accepts.
  unfoldable pub IsSettled : ℕ → Outcome FeedError (List (List ℕ)) → Type 0
  IsSettled max outcome =
      WhenOk
        (λ result. IsWithin (feed_limit max) result × (validate_feed N result [] ≡ some (ok tt)))
        outcome

  accepted :
      (max : ℕ) (result : List (List ℕ)) (last : Outcome FeedError (Unit {0}))
      → IsWithin (feed_limit max) result
      → validate_feed N result [] ≡ some last
      → (outcome : Outcome FeedError (List (List ℕ))) × (accept_feed N result
            (validate_feed N result [])
          ≡ some outcome)
        × IsSettled max outcome
  unfolding accept_feed IsSettled
  accepted max result (err e) h k = (err e, rw k refl, err_holds)
  accepted max result (ok u) h k = (ok result, rw k refl, ok_holds (h, k))

  finished :
      (max : ℕ) (reading : Outcome FeedError (List (List ℕ)))
      → WhenOk (IsWithin (feed_limit max)) reading
      → (outcome : Outcome FeedError (List (List ℕ))) × (finish_feed N reading ≡ some outcome)
        × IsSettled max outcome
  unfolding finish_feed IsSettled
  finished max (err e) h = (err e, refl, err_holds)
  finished max (ok result) h =
      let (last, e) = validate_feed-ends result in accepted max result last (h.known result refl) e

-- `Parse` ends on every text and limit, since the fuel of both inner loops is enough; and where it
-- gives a list, that has at most as many entries as the limit says, ten thousand where none is
-- given, and `Validate` accepts it.
pub parse_feed-ends :
    (N : NetIp) (body : List ℕ) (max : ℕ)
    → (outcome : Outcome FeedError (List (List ℕ))) × (parse_feed N body max ≡ some outcome)
      × IsSettled N max outcome
unfolding parse_feed IsWithin
parse_feed-ends N body max =
    finished N max (read_entries N 1 (feed_limit max) [] (drop_end (split 10 body)))
      (read_entries-IsWithin N (feed_limit max) 1 [] (drop_end (split 10 body)) (omega arith))
