-- ===== src/Lib.antt =====
-- NFT Firewall V2: a model of the parts of the daemon on which its safety rests, and theorems
-- about them.
--
-- Prelude holds the shared names, Boolean tests, lists, texts and the `(value, error)` results.
--
-- Provenance models internal/provenance/ledger.go, the permanent registry that gives each ingress
-- interface one id for the high byte of its conntrack marks.
--   Provenance/Assignment: `Assignment`, the name pattern, and `ValidateActive` with its two maps.
--   Provenance/Table: the rows of the `allocations` table; INSERT, UPDATE and SELECT with the
--   constraints of the schema; `assignmentsFrom` with its sort.
--   Provenance/Ledger: `Reserve`, `ValidateRequired` and `MergeFrom`. Which steps of the database
--   and of the final file sync fail is an input, `Faults`, so every error path is covered. A
--   transaction that is not committed leaves the rows as they were.
--   Opening, securing and copying the database file is not modelled.
--
-- Effects: actions on a state, on which the next parts stand. Each call to the database, the files,
--   nft or the setup's executor takes an answer from a tape: it succeeds, fails, fails with a code,
--   fails after its effect, or is the last call of the process, before or after its effect. Past
--   the end of the tape every call succeeds. Nothing loops, so there is no fuel.
--   Effects/Logic: rules for what an action leaves on every tape.
--
-- Machine, State, Nft and Reconcile model what a generation goes through on a host.
--   Machine/Types: the machine: rows of the `generations` table, files under generations/, the
--   enforcement pointer, the kernel's owned tables; and the parameters that stand for SHA-256,
--   JSON and nft, `Outside`.
--   Machine/Effects, Machine/Logic: the actions and their rules on this machine.
--   State/Files: internal/state/active.go, snapshots and the pointer with its atomic rename.
--   State/Store: internal/state/store.go, the statements on the generations table. A transaction
--   takes effect at its commit. A failed sync is an error after the effect.
--   State/Authority: which rows a pointer may name.
--   Nft/Backend: internal/nft/backend.go and fingerprint.go, loading a script in one transaction.
--   The script validator, the JSON of nft and the digest are parameters.
--   Reconcile: internal/reconcile/manager.go and recovery.go. Rollback, Commit, Apply, Recovery
--   (RecoverAtBoot) and Drift (RollbackExpired, Reconcile) are in modules of their own; History
--   runs them in any order, each with its own tape. The manager holds its mutex and the process
--   lock, so its operations do not interleave.
--   Audit records are calls without an effect in the model. VerifyEnforcement is not modelled.
--
-- Setup models the managed installation, internal/setup/engine.go and the journal file of
-- internal/setup/journal.go.
--   Setup/Types: the journal, its phases and checks, error codes, and the host: the journal file,
--   the archived journals, whether the generation of the setup is committed, and the calls of the
--   executor so far, each with what the file held then.
--   Setup/Journal: `Begin`, `Write` and `Read`. Checks of directories and owners, the JSON and the
--   rename are part of the call. Setup/Journal/Begin proves what may be replaced.
--   Setup/Engine: `fail` and `RollbackExpired`. Setup/Run: `Run` after `Prepare`, phase by phase.
--   Setup/Recovery: an installation and the timer runs after it, each a process of its own.
--   The executor's steps (internal/setup/system.go) are calls that only `Commit` gives an effect;
--   the plan that `Prepare` makes and the generation's number are inputs. A rollback that wants a
--   reboot is told by its code. The retry of a setup is not modelled.
--
-- Policy models internal/policy/model.go, which policy decides on a flow.
--   Policy: the fields of the configuration that are read, the maps of zones and services, and the
--   sorted policies. Policy/Explain: `ExplainEffective` and its questions about addresses. Parsing
--   and containment of net/netip are a parameter, `NetIp`.
--   Policy/Sorted, Verdict and Order: what the loop decides, stated without an order.
--
-- Claims models the claims of internal/state/store.go, the addresses that are blocked or trusted for
-- a time, and the revisions that say whether the kernel has them.
--   Claims/Types: rows and their checks. Times are the texts that the database compares; net/netip
--   and the time format are a parameter, `Formats`. Revisions and ids do not overflow in the model.
--   Claims/Session: transactions. A session works on a copy of the tables, and a commit makes it
--   durable. Claims/Writes, Replace, Publication and Retire: the operations. Rows of the audit log,
--   the times in the row of the integration's state, and the rows of the other integrations, whose
--   names are an argument of `retire_inactive_integrations`, are not modelled.
--   Claims/Ends and Retire/Ends: how each operation may end. Claims/Revisions: sequences of
--   operations, each with its own failures. Claims/Limits: the limit on the number of claims.
--   Claims/Addresses: the effective addresses (Active: those of the claims that are active at a
--   time), the claims of operators (internal/blocks/claims.go) and the prefixes of a country
--   (internal/geo/claims.go), whose lines are given.
--
-- Wgconfig models internal/wgconfig/profile.go, the WireGuard profiles of a provider.
--   Wgconfig/Text: what is used of `strings` and `bufio`, on texts as lists of code points; with its
--   laws. Wgconfig: the fields and `validate`. Wgconfig/Fields: `assign`, with the lists of prefixes
--   and servers. Wgconfig/Parse: `parse`, line by line, on the text of the file. Wgconfig/Print:
--   `NormalizedWGQuick` and `WGSetConfig`, as the lines that they write.
--   Parsing and printing of net/netip, base64 and strconv are a parameter, `Library`. Opening the
--   file safely is not modelled. The loops are over lists, so there is no fuel.
--   Wgconfig/Accepted: what is accepted. Wgconfig/Roundtrip: what is written is read back, under
--   the laws `IsLibrary` of the packages (Wgconfig/Roundtrip/Values).
--
-- Threatintel models internal/threatintel/feed.go, the feeds of addresses to block: `Parse` on the
--   text of a feed, and `Validate`. What net/netip does is a parameter, `NetIp`.
--   Threatintel/Coverage: `validateAggregateCoverage`. Its two inner loops run on fuel, one more than
--   the steps that they can make; Threatintel/Coverage/Loops shows that it is enough. The families
--   are 32 and 128 bits, and any other is counted as 128. Fetching a feed is not modelled.
--
-- Not modelled: the compiler's nft text, the validation of the configuration (internal/config), the
-- endpoints of WireGuard, routing, discovery, containers, health, the API and its
-- runtime, the host steps of the setup (internal/setup/system.go, boot.go, backup.go), and the
-- commands under cmd/.
mod Prelude
pub mod Provenance
pub mod Effects
pub mod Machine
pub mod State
pub mod Nft
pub mod Reconcile
pub mod Setup
pub mod Policy
pub mod Claims
pub mod Wgconfig
pub mod Threatintel
