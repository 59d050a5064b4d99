-- ===== src/Provenance.antt =====
-- internal/provenance/ledger.go: the permanent registry of ingress interfaces.
pub mod Assignment
pub mod Table
pub mod Ledger
mod Tests
