-- ===== src/Tests.antt =====
-- Concrete instances of the parameters, and the theorems at concrete inputs.
mod Toy
mod Wire
mod Miner
mod Verifier
mod Connect
mod Infra
mod Front
mod Messages
mod Dex
mod History
mod Orders
mod Names
mod Client
mod Proxy
