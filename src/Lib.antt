-- ===== src/Lib.antt =====
-- PZDR Gateway: a gateway for AI inference that runs in an AWS Nitro enclave, decrypts a client's
-- request there, answers it, and signs a statement of what it did, which it appends to a transparency
-- log.
--
-- The parts, and the files of the repository that they model:
--   Ledger   services/pzdr-enclave/src/transparency.rs. The RFC 6962 log: `leaf_hash`, `node_hash`,
--            `split`, `mth`, `inclusion`, `subproof`, `TransparencyLog` with its methods, and the two
--            verifiers of its tests. Each function has the name that it has there; `mth_rec`,
--            `inclusion_rec` and `subproof_rec` are the recursions, and `inclusion_loop`,
--            `consistency_loop`, `strip_zeros` and `strip_ones` the loops of the verifiers with their
--            variables as records.
--   Policy   services/pzdr-enclave/src/policy.rs. `evaluate` with its scans `contains`,
--            `looks_like_ssn` and `looks_like_pan`; `policy_hash` stands in Enclave/Wire.
--   Json     `sort_keys` of services/pzdr-enclave/src/main.rs and policy.rs, over the values of
--            serde_json.
--   Frames   `read_framed` and `write_framed` of services/pzdr-enclave/src/main.rs, which
--            crates/vsock-parent-proxy/src/main.rs repeats.
--   Enclave  the rest of services/pzdr-enclave/src/main.rs. Crates has what is taken from outside,
--            Wire the structures that are signed and sent, Machine the state with its primitive
--            steps, Admit the checks of a request in `process_and_delete`, Session the rest of that
--            handler with `fail` and `append_proof`, Queries the handlers that read, Dispatch
--            `dispatch` and `handle_conn`. Boot has `EnclaveState::new`, Halves the two halves of a
--            session. Receipts, Concluded, Recorded, Quiet, Admission, Refusals, Answers, Requests,
--            Sessions, Continuity, Steps and Interleaving prove.
--   Metering crates/marketplace-metering/src/lib.rs. The usage events with their idempotency key, and
--            the payload of a batch of them. Journal has the files of events, and Command
--            crates/marketplace-metering/src/bin/pzdr-metering-payload.rs.
--   Proxy    crates/vsock-parent-proxy/src/main.rs: in Forward `do_forward` with its counters and
--            errors and the handlers that call it, a `Route` for each. Accounts, Tally, EndToEnd,
--            Lookup and Paths prove.
--   Nitro    crates/nitro-attestation/src/lib.rs. Formats has what is taken from outside; Attestation
--            the methods of `VerifiedAttestation`; Document and Parsing `Verifier::parse`; Chain
--            `verify_chain` with its checks of a certificate; Verifier `verify_cose_signature`,
--            `verify_signature` and `parse_and_verify`; Pem and Armor `decode_vec` and the two root
--            certificates; Device `EnclaveSelf`. Freshness, Issuing, Signing, Links, Pool, Paths,
--            Route, Decoded, Trust, Order, Parsed, Verified and Entropy prove.
--   Base     what the others share: tests, lists over the native numbers, powers of two, byte
--            strings, texts and their lines, 64-bit signed numbers and Rust's `Result`.
--
-- How they interact: `dispatch` sends a request to a handler of the enclave; a session runs the policy
-- on the plaintext, hashes and signs canonical JSON, and appends the signed proof to the ledger, whose
-- audit path goes into the receipt. The two verifiers of Ledger stand under #[cfg(test)] in the
-- source, where they mirror tools/pzdr_verify.py, the check that a client makes of receipts and
-- checkpoints, and the verifier of Nitro is what a client runs on the enclave's attestation.
-- `do_forward` writes a frame that `handle_conn` reads, and reads the frame of the answer of
-- `dispatch`. `EnclaveState::new` takes its seeds from `EnclaveSelf`.
--
-- State: `EnclaveState` has the keys, the counter, the log and the policy. A handler is a step `Act`
-- from a machine (the state and the world outside) to a result and the next machine; what was changed
-- before an error stays changed. Handlers run to their end in one go; Enclave/Halves cuts a session
-- behind its atomic counter and before the log under its lock, and Enclave/Steps has the runs in which
-- other sessions come between the two halves.
--
-- Numbers: a usize or u64 is a natural number. `split_loop` and the counter wrap at 2^64, and a length
-- is cast to 32 bits where `write_framed` does so. A log of real hashes of 32 bytes cannot have 2^58
-- leaves in an address space of 2^63 bytes, and `Fits` asks for that bound. An i64 is an integer of
-- Base/Int, whose subtraction wraps where `assert_fresh` subtracts.
--
-- Fuel: `split_loop` has 64 rounds, since its number doubles up to 2^64; `strip_zeros` and
-- `strip_ones` have as many rounds as the number that they halve; `mth_rec`, `inclusion_rec` and
-- `subproof_rec` have the length of their slice, which every call makes smaller; `trim_loop` has the
-- length of the path, and `digits` the number that it prints, whose digits are fewer. `chain_loop` has
-- a round for each certificate of the pool, since each round takes one out of it. `random_loop` has
-- the rounds that its caller gives and answers `none` behind them, because an empty answer of the
-- security module is no progress.
--
-- Parameters: SHA-256 (a function to 32 bytes) and, in `Crates`, the other crates: hex, base64,
-- X25519, HKDF, XChaCha20-Poly1305, Ed25519 with the law that a signature is accepted under its own
-- key, serde_json's reading, and its writing with the law that a `Value` can be written; the clocks,
-- the random numbers and the security module. `Formats` has CBOR, COSE, X.509 and the P-384
-- signatures, `Driver` the calls of the security module, `Keys` the public key of X25519, `Web` what
-- axum and http check of headers, `Serde` and `Printers` serde_json on events and payloads. No law
-- says that the hash has no collisions: a theorem that needs it names the collision that a wrong
-- answer would give.
--
-- Not modelled: the HTTP server of the proxy with its metrics page and its messages to systemd, tasks
-- of tokio, tracing, wiping of memory on drop, the SDK in TypeScript, the tools in Python, scripts and
-- Terraform.
pub mod Base
pub mod Ledger
pub mod Policy
pub mod Json
pub mod Frames
pub mod Enclave
pub mod Metering
pub mod Proxy
pub mod Nitro
