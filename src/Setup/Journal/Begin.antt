-- ===== src/Setup/Journal/Begin.antt =====
-- What `Begin` may replace, on every tape.
use nft_firewall_v.Prelude.{
  String, true, false, not, ◌||◌, ◌≡◌, ◌∙◌, refl, sym, subst, Option, none, some, ◌∷◌, str_eq,
  arith,
}
use nft_firewall_v.Effects.Logic.{
  Keeps, Reads, follows, weaken, catches, if_follows, act_follows, acts_then, asks_then, gets_then,
  refuses_then, reads_fail, reads_pure, fail_follows, moved,
}
use nft_firewall_v.Setup.Types.{
  Journal, Host, Library, initial_setup_journal, terminal_rolled_back_journal,
}
use nft_firewall_v.Setup.Journal.{
  write, read, found, is_some, valid_sha256, archive_terminal_journal, replace, create, begin,
}

found_keeps :
    (d : Host) (o : Option Journal) → o ≡ d.journal → Reads d (found o) (λ j. d.journal ≡ some j)
unfolding found
found_keeps d none at = reads_fail _
found_keeps d (some j) at = reads_pure j (sym at)

pub reads_journal : (d : Host) → Reads d read (λ j. d.journal ≡ some j)
unfolding read
reads_journal d = asks_then refl (λ u. gets_then (λ h. h.journal) (λ o at. found_keeps d o at))

module _ (l : Library) (j : Journal) (sha : String) where
  -- The journal that may be replaced.
  pub record Replaceable (prior : Journal) : Type 0 where
    pub named : str_eq (l.sha256 prior) sha ≡ true
    pub terminal : terminal_rolled_back_journal l prior ≡ true
    pub other : str_eq prior.transaction j.transaction ≡ false

  abbrev archived : Journal → Host → Host
  archived prior d = record d { history = prior ∷ d.history }

  -- How the file may have changed: from nothing, or from a journal that is kept.
  pub data Begun (d : Host) : Host → Type 0 where
    created : d.journal ≡ none → Begun d (record d { journal = some j })
    replaced :
        (prior : Journal)
        → d.journal ≡ some prior
        → Replaceable prior
        → Begun d (record d { journal = some j; history = prior ∷ d.history })

  pub data Unbegun (d : Host) : Host → Type 0 where
    same : Unbegun d d
    kept :
        (prior : Journal)
        → d.journal ≡ some prior
        → Replaceable prior
        → Unbegun d (record d { history = prior ∷ d.history })
    cut : {d' : Host} → Begun d d' → Unbegun d d'

  none_there : (o : Option Journal) → is_some o ≡ false → o ≡ none
  unfolding is_some
  none_there none h = refl
  none_there (some k) h = cc

  create_begins : (d : Host) → Keeps d (Unbegun d) (create l j) (λ u. Begun d)
  unfolding create write
  create_begins d = asks_then same (λ u.
      gets_then (λ h. is_some h.journal)
        (λ there at. refuses_then there _ same (λ no v.
          let absent = none_there d.journal (sym at ∙ no) in
          act_follows _ same (cut (created absent)) (created absent))))

  prior_checked :
      (prior : Journal)
      → (not (str_eq (l.sha256 prior) sha)
          || (not (terminal_rolled_back_journal l prior) || str_eq prior.transaction j.transaction))
        ≡ false
      → Replaceable prior
  prior_checked prior h = record {
    named = ground arith;
    terminal = ground arith;
    other = ground arith;
  }

  replace_begins : (d : Host) → Keeps d (Unbegun d) (replace l j sha) (λ u. Begun d)
  unfolding replace write archive_terminal_journal
  replace_begins d = refuses_then (not (valid_sha256 sha)) _ same (λ ok u.
      follows {J = λ prior d'. (d' ≡ d) × (d.journal ≡ some prior)}
        (catches {Y = λ e. Unbegun d}
          (weaken (reads_journal d) (λ prior d' h. h) (λ e d' at. subst (Unbegun d) (sym at) same)
            (λ d' at. subst (Unbegun d) (sym at) same))
          (λ e d' h. fail_follows _ h))
        (λ prior d' (at, there). moved at (
          refuses_then _ _ same (λ good v.
            let fine = prior_checked prior good in
            acts_then _ same (kept prior there fine) (λ w.
              act_follows _ (kept prior there fine) (cut (replaced prior there fine))
                (replaced prior there fine))))))

  pub begin_follows : (d : Host) → Keeps d (Unbegun d) (begin l j sha) (λ u. Begun d)
  unfolding begin
  begin_follows d =
      refuses_then (not (initial_setup_journal j)) _ same
        (λ ok u. if_follows (str_eq sha "") (λ k. create_begins d) (λ k. replace_begins d))
