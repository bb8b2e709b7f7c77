-- ===== src/Connect.antt =====
-- bee_connect: the sessions between an application and a wallet.
pub mod Keys
pub mod Session
pub mod Messages
pub mod Dex
pub mod Client
