-- ===== src/Verifier.antt =====
-- The proof verifier (bee_verifier): the checks of one proof, and the request handler.
pub mod Checks
pub mod Handler
