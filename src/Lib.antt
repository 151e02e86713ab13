-- ===== src/Lib.antt =====
-- Yvonne, a key management service written in Go: a model of its core and what holds of it.
--
-- A vault (internal/seal) holds the master key. It is unsealed by Shamir shares and sealed by a
-- call, by a timer, or for good by an emergency. The key manager (internal/lifecycle) wraps data
-- keys with a KEK and keeps their versions in a key-value store (internal/storage) behind a cache;
-- ciphertexts carry the version of their key (internal/crypto). Requests are authenticated and
-- checked against policies (internal/auth), and sensitive ones pass a gate of approvals and second
-- factors (internal/api). The service core (internal/service) guards each operation by the vault
-- and the policy, runs it with the key manager and records it; a daemon rotates keys that are due.
--
-- Base: Go strings and byte slices (lists of numbers), maps (association lists), decimal numbers,
--   cleared arrays, Boolean tests and conditionals; Base/Xor has the laws of xor on bits.
-- Storage: internal/storage/memory.go. Storage/Memory/Defs has MemoryStore with Put, Get, Delete,
--   WithTx, the transaction's methods, ScanPrefix and ScanPrefixPaged; `garbage` lists the arrays
--   that the map let go; Memory/Refining compares it with a map. Storage/Interface is KVStore of
--   kvstore.go as a record of operations and laws, which the key manager is written against and
--   MemoryStore fills.
-- Crypto: Crypto/Versioned/Format has versioned_ciphertext.go and versioned_encrypt.go; AES-GCM is
--   the parameter `Gcm`, with the length and the opening of what it seals.
-- Lifecycle: internal/lifecycle. Metadata has KeyMetadata, its states, and the KEK of
--   internal/seal/kek.go; JSON is the parameter `Codec`, which reads back what it wrote. Keys has
--   the store's keys, Cache is cache.go. Manager/Defs has the manager's state, loadMetadata and
--   the search for the latest version, Manager/Transactions the callbacks of WithTx and
--   Manager/Operations the methods. Each further file of Manager proves one of them. Listing/Defs
--   has ListKeyIDs and countKeys, Listing/Reaper reapExpiredSoftDeletes. Daemon is daemon.go; its
--   child files are about the scan, the rounds and a rotation.
-- Seal: internal/seal. Shamir/Field has GF(2^8) with the tables that init builds, Shamir/Sharing
--   has Split, Combine and CombineWithThreshold of shamir.go; Shamir/Inverse, Multiplying and
--   Table are about the tables, Sharing/Shape about the shares. Shamir/Distributing makes the bytes
--   a field, which Shamir/BinaryField states as a record; over any such field, Weights, Lagrange and
--   Products are about polynomials; Bytes fills the record, and Sharing/Accepting, Positions and
--   Recovery carry it over to Split and Combine. Vault/Machine has VaultState of state.go, one
--   function per method, and `Event`, `step` and `run` for sequences of calls; Vault/Recovery joins
--   the vault and the shares.
-- Audit: internal/audit. Hex is encoding/hex, Logger has chain.go and logger.go, with SHA-256 and
--   HMAC as parameters and `LogJson` for JSON, Query has query.go. Recording, Sorting and Finding are
--   about a log and its queries, Omitting about lines that were taken out of it, Linked and
--   Tampering about the chain, Limits about what a query gives back.
-- Auth: internal/auth and its handlers. Policy/Defs has auth.go and multi_authenticator.go.
--   Approval/Defs has approval.go and approval_store_memory.go, Approval/Handlers the handlers of
--   internal/api/handler_approval.go with their status codes, Approval/Gate the middleware of
--   internal/api/middleware_mfa.go, and Approval/Serving sequences of requests. A handler is one
--   step there; Approval/Races lets another request come between its reading and its writing.
--   Mfa/Totp has totp.go, with HMAC-SHA1 and base32 as parameters, Mfa/Handlers the state of
--   auth.go, mfa_store_memory.go and internal/api/handler_mfa.go.
-- Service: internal/service. Core/Defs has the state, the guards and the audit records, Core/Keys
--   and Core/Data the operations of core.go and core_v12.go, Core/Calls the type of their calls.
-- Client: sdk/go/yvonne/retry_circuit_breaker.go. Breaker has CircuitBreaker, Retry has doWithRetry
--   and isRetryable.
-- Examples: the theorems at concrete inputs, with a small codec, cipher and KEK.
--
-- Numbers are natural numbers; an int that may be negative is `ℤ` in the handlers, and the
-- duration made of it wraps at 64 bits. Time and random bytes are arguments. A method that holds
-- its lock throughout is one step, so that concurrent calls are a sequence.
-- Fuel: `scan_fuel` bounds the rounds of findLatestVersionScan. The manager's theorems hold for
-- every bound, since the index that CreateKey and RotateKey write answers before the scan; where a
-- theorem needs what the search finds, it is a hypothesis at that bound. In the listing, fuel counts
-- pages: one more than the number of items is enough.
--
-- Not modelled: the stores on PostgreSQL and BoltDB, JWT and Kubernetes tokens, HSMs and SM2
-- (calls of libraries and devices); the servers, the configuration and metrics (input and output);
-- the rotation of the audit log's files and Syslog; the rate limiter, whose tokens are floating
-- point; the requests of the Go client; Sign and Verify of the service core, which call RSA and
-- ECDSA. ValidateTOTP is an argument of the gate and of the handlers. Folding of case in action
-- names is that of ASCII.
pub mod Base
pub mod Crypto
pub mod Storage
pub mod Seal
pub mod Lifecycle
pub mod Audit
pub mod Auth
pub mod Client
pub mod Service
pub mod Examples
