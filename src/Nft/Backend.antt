-- ===== src/Nft/Backend.antt =====
-- internal/nft/backend.go and fingerprint.go. nft runs a script file as one transaction; what it
-- loads and lists is a parameter. The mutation lock is held wherever the manager calls. The lines
-- that destroy existing owned tables before a script are part of its loading.
pub mod Writes
use nft_firewall_v.Prelude.{
  ℕ, String, Bool, true, false, not, ◌&&◌, Option, none, some, ◌==◌, ltb, if◌then◌else◌,
}
use nft_firewall_v.Machine.Types.{Machine, Kernel, Outside}
use nft_firewall_v.Machine.Effects.{
  M, Error, execution, io, refused, pure, fail, ◌>>=◌, ◌>>◌, catch, gets, puts, act, ask,
  refuse_when,
}

-- The three owned tables.
abbrev pub owned_tables : ℕ
owned_tables = 3

-- `EmergencyDenyScript` is known by its name only.
abbrev pub emergency_deny_script : String
emergency_deny_script = "emergency-deny"

abbrev pub no_tables : Kernel
no_tables = record { tables = 0; rules = "" }

-- `len(ExistingOwned())`
unfoldable pub existing_owned : M ℕ
existing_owned = do ask; gets (λ m. m.kernel.tables)

unfoldable pub protect_first_use : M (Unit {0})
protect_first_use = do
  n ← existing_owned
  refuse_when (ltb 0 n) "first-use nft table collision"
  puts (λ m. record m { protect_first_use = true })

unfoldable pub destroy_owned : M (Unit {0})
destroy_owned = do
  n ← existing_owned
  if n == 0 then pure tt else (ask >> act (λ m. record m { kernel = no_tables }))

module _ (o : Outside) where
  -- The kernel after a script was loaded in place of the owned tables.
  abbrev pub loaded : String → Kernel
  loaded script = record { tables = o.tables_of script; rules = o.listing script }

  -- `Apply`. Its last call is `nft --file`, whose failure leaves the kernel in doubt.
  unfoldable pub backend_apply : String → M (Unit {0})
  backend_apply script = do
    refuse_when (not (o.script_valid script)) "invalid nft script"
    n ← existing_owned
    protected ← gets (λ m. m.protect_first_use)
    refuse_when (protected && ltb 0 n) "first-use nft table collision"
    ask
    ask
    catch (act (λ m. record m { kernel = loaded script })) (λ e. fail execution)
    puts (λ m. record m { protect_first_use = false })

  -- `Integrity`
  unfoldable pub integrity : M Bool
  integrity = do
    n ← existing_owned
    if n == owned_tables then (ask >> gets (λ m. o.intact m.kernel.rules)) else pure false

  -- `Fingerprint`: listing a table that does not exist fails.
  unfoldable pub fingerprint : M String
  fingerprint = do
    ask
    n ← gets (λ m. m.kernel.tables)
    if n == owned_tables then gets (λ m. o.digest m.kernel.rules) else fail io
