-- ===== src/Lib.antt =====
-- A model of bee-engine: mining sessions, their verification, connect sessions,
-- retries, and what a wallet lists.
--
-- A miner collects taps. Each tap becomes a leaf: its data, a nonce and a BLAKE3 hash below a
-- threshold. The leaves of a session are put into a Merkle tree, whose root is committed before a
-- contract asks for proofs of some windows of leaves. A verifier, which is compiled to WebAssembly
-- and called by the contract, decodes a request, checks the four proofs and answers with six bytes.
-- Beside that, an application and a wallet exchange messages in connect sessions, whose keys are
-- changed with every message; and network calls go through retries and a rate limiter. A wallet
-- lists the transactions and the sell orders of an account page by page, from a node and, for what
-- is older, from an archive. A proxy for tests answers the first attempts of each message itself.
--
-- Files, and the code that each is about:
--   Base      lists, bytes, texts, decimals and results that the others share
--   Shared    bee_shared/src/miner/leaf.rs (Leaf, ComputedLeaf), bee_shared/src/verifier.rs (the
--             request and its decoding)
--   Miner     bee_miner/src/core: merkle.rs (Merkle), processor.rs (Processor), context.rs
--             (Context: MiningCore), session_complexity.rs (Complexity), and what
--             bee_miner/src/wasm/worker.rs submits (Submission); miner.rs and worker.rs of
--             bee_miner/src/wasm (Front): the queue of seeds, the workers and their tasks
--   Verifier  bee_verifier/src: verifier.rs and error.rs (Checks), lib.rs (Handler)
--   Connect   bee_connect/src: dh.rs (Keys, and Session with the two re-keyings), message.rs
--             (Messages), dex_protocol.rs (Dex), client.rs (Client: sending and finding messages)
--   Infra     bee_infra/src: rate_limiter.rs (RateLimiter), retry.rs (Retry), message_delivery.rs
--             (Delivery), lib.rs (Poll)
--   Wallet    bee_wallet/src/services: transaction/history.rs (History, with account_id of
--             bee_wallet/src/dapp.rs), tokens/sell_orders.rs (Orders), validate_name.rs (Names)
--   Proxy     tools/queue_overflow_proxy/src/lib.rs
--   Tests     instances of the parameters, and the theorems at concrete inputs
--
-- A function of the source has a function of the same name, with the state before as an argument and
-- the state after in its result; an early return or an error is a value of Result. Strings are their
-- bytes. Integers are natural numbers; a sum or difference that can wrap in a release build wraps
-- in the model; usize has 32 bits in the verifier and the miner's worker, and its width is an argument
-- of the sell orders. Clocks and random bytes are arguments.
--
-- What GraphQL queries, JSON parsers and getters of contracts answer is an argument too, a function of
-- what they are asked; tasks that the source runs side by side run one after the other.
--
-- The crates blake3, hex, rs_merkle, borsh, x25519_dalek, ed25519_dalek, hkdf and chacha20poly1305
-- are parameters: records of functions with the laws that the code relies on. A tree lists the
-- leaves that were committed, and its proof for a window of them verifies against its root; a
-- Diffie-Hellman secret is the same from both sides; decoding undoes encoding, and decryption
-- encryption; and messages that are written as JSON are read back.
--
-- The miner's tasks interleave where the source awaits: each step of a task is a function from the
-- shared state, and the whole is a step relation with the calls from JavaScript and the events of
-- the contract. A task may receive any command, since the channels' contents are not kept.
--
-- Fuel: the nonce search takes its number of tries, and a history in which it runs out has no state
-- after it; a search with more tries than the first solution finds it. A delivery has fuel for 31
-- attempts, the 30 retries and the first; polling has fuel for the number of fetches it is allowed.
-- The loops over pages of messages and of events recurse on the 10 and 50 pages of the source.
--
-- Not modelled: JavaScript and native bindings, calls of contracts and of the network, JSON, the
-- texts of errors, the rest of the wallet, and key storage.
pub mod Base
pub mod Shared
pub mod Miner
pub mod Verifier
pub mod Connect
pub mod Infra
pub mod Wallet
pub mod Proxy
mod Tests
