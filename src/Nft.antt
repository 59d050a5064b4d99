-- ===== src/Nft.antt =====
-- internal/nft: the transactions on the owned tables.
pub mod Backend
