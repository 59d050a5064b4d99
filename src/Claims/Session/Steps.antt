-- ===== src/Claims/Session/Steps.antt =====
-- The steps of a transaction: only the commit changes what is durable.
use nft_firewall_v.Prelude.{ℕ, ◌+◌, false, ◌≡◌, refl}
use nft_firewall_v.Effects.{Action, ◌>>=◌, clock}
use nft_firewall_v.Effects.Logic.{
  Keeps, follows, acts_then, asks_then, reads_then, reads_clock, act_follows, gets_follows, moved,
}
use nft_firewall_v.Claims.Types.{Formats, Db}
use nft_firewall_v.Claims.Session.{
  Session, begin_tx, commit_tx, exec, query, audit, mark_runtime_claims_degraded,
  mark_claim_publication_dirty,
}

-- What the marks of the publication leave.
abbrev pub degraded : ℕ → Db → Db
degraded n d = record d { healthy = false; entry_count = n }

abbrev pub dirtied : ℕ → Db → Db
dirtied n d = record d { desired = d.desired + 1; healthy = false; entry_count = n }

abbrev pub Durable : (Db → Type 0) → Session → Type 0
Durable P s = P s.durable

module _ {ℓ} {B : Type ℓ} {K : B → Session → Type 0} (P : Db → Type 0) (s : Session)
    (h : P s.durable) where
  pub begin_then :
      {k : Unit {0} → Action Session B}
      → ((u : Unit {0}) → Keeps (record s { pending = s.durable }) (Durable P) (k u) K)
      → Keeps s (Durable P) (begin_tx >>= k) K
  unfolding begin_tx
  begin_then rest = acts_then _ h h rest

  pub exec_then :
      (f : Db → Db) {k : Unit {0} → Action Session B}
      → ((u : Unit {0}) → Keeps (record s { pending = f s.pending }) (Durable P) (k u) K)
      → Keeps s (Durable P) (exec f >>= k) K
  unfolding exec
  exec_then f rest = acts_then _ h h rest

  pub audit_then :
      {k : Unit {0} → Action Session B}
      → ((u : Unit {0}) → Keeps s (Durable P) (k u) K)
      → Keeps s (Durable P) (audit >>= k) K
  unfolding audit
  audit_then rest = asks_then h rest

  pub clock_then :
      {k : ℕ → Action Session B}
      → ((now : ℕ) → Keeps s (Durable P) (k now) K)
      → Keeps s (Durable P) (clock >>= k) K
  clock_then rest = reads_then h (reads_clock s) (λ now t. rest now)

  pub commit_then :
      {k : Unit {0} → Action Session B}
      → P s.pending
      → ((u : Unit {0}) → Keeps (record s { durable = s.pending }) (Durable P) (k u) K)
      → Keeps s (Durable P) (commit_tx >>= k) K
  unfolding commit_tx
  commit_then after rest = acts_then _ h after rest

module _ {ℓ} {A : Type 0} {B : Type ℓ} {K : B → Session → Type 0} (P : Db → Type 0) (s : Session)
    (h : P s.durable) where
  pub query_then :
      (f : Db → A) {k : A → Action Session B}
      → ((a : A) → a ≡ f s.pending → Keeps s (Durable P) (k a) K)
      → Keeps s (Durable P) (query f >>= k) K
  unfolding query
  query_then f rest =
      follows {J = λ a s'. (s' ≡ s) × (a ≡ f s.pending)}
        (asks_then h (λ u. gets_follows _ (refl, refl))) (λ a s' (e, at). moved e (rest a at))

pub commit_last :
    {K : Unit {0} → Session → Type 0} (P : Db → Type 0) (s : Session)
    → P s.durable
    → P s.pending
    → K tt (record s { durable = s.pending })
    → Keeps s (Durable P) commit_tx K
unfolding commit_tx
commit_last P s before after k = act_follows _ before after k

module _ (f : Formats) (P : Db → Type 0) (s : Session) (h : P s.durable) (now : ℕ) where
  pub degraded_keeps :
      Keeps s
        (Durable P)
        (mark_runtime_claims_degraded f now)
        (λ u s'. (n : ℕ) × (s' ≡ record s { pending = degraded n s.pending }))
  unfolding mark_runtime_claims_degraded exec
  degraded_keeps = query_then P s h _ (λ n at. act_follows _ h h (n, refl))

pub dirtied_keeps :
    (f : Formats) (P : Db → Type 0) (s : Session)
    → P s.durable
    → (now : ℕ)
    → Keeps s
        (Durable P)
        (mark_claim_publication_dirty f now)
        (λ u s'. (n : ℕ) × (s' ≡ record s { pending = dirtied n s.pending }))
unfolding mark_claim_publication_dirty
dirtied_keeps f P s h now = exec_then P s h _ (λ u. degraded_keeps f P _ h now)

module _ {ℓ} {B : Type ℓ} {K : B → Session → Type 0} (f : Formats) (P : Db → Type 0) (s : Session)
    (h : P s.durable) (now : ℕ) where
  pub degrade_then :
      {k : Unit {0} → Action Session B}
      → ((n : ℕ) (u : Unit {0})
          → Keeps (record s { pending = degraded n s.pending }) (Durable P) (k u) K)
      → Keeps s (Durable P) (mark_runtime_claims_degraded f now >>= k) K
  degrade_then rest = follows (degraded_keeps f P s h now) (λ u s' (n, at). moved at (rest n u))

  pub dirty_then :
      {k : Unit {0} → Action Session B}
      → ((n : ℕ) (u : Unit {0})
          → Keeps (record s { pending = dirtied n s.pending }) (Durable P) (k u) K)
      → Keeps s (Durable P) (mark_claim_publication_dirty f now >>= k) K
  dirty_then rest = follows (dirtied_keeps f P s h now) (λ u s' (n, at). moved at (rest n u))
