-- ===== src/Wallet.antt =====
-- bee_wallet/src: what the wallet computes from what the network answers.
pub mod History
pub mod Orders
pub mod Names
