-- ===== src/Lib.antt =====
-- A model of AAFP-Go, the Go implementation of the AAFP v1 protocol, and what is proved of it.
--
-- The program takes a frame from the wire, checks it in a fixed order of phases and hands it on.
-- `frame/frame.go` and `frameext/frameext.go` read and write frames and their extensions,
-- `cbor/cbor.go` the payloads; `pipeline/pipeline.go` runs the phases over these and asks its caller
-- about signatures and rights; `handshake/state_machine.go` and `closemanager/closemanager.go` are
-- the state machines of a connection's start and end. `handshake/handshake.go` has the messages that
-- start it and what both ends hash and derive, `identity/identity.go` the records by which agents are
-- known, and `replaycache/` the nonces that a hello may not bring again.
-- `cmd/generate_interop_fixtures/main.go` writes files made with all of these for another
-- implementation to read.
--
-- Which file models what:
--   * Base: lists, Go's `(value, error)` pairs, integers, big-endian bytes, byte masks, UTF-8 and
--     ASCII texts.
--     A Go byte slice or string is a list of numbers, a uint64 a number below 2 ^ 64. A function that
--     returns an error gives a `Result`: `ok`, `err`, or `panic` where the Go runtime would panic.
--     An error keeps its kind, not its text.
--   * Errors: `errors/errors.go`, the codes and `IsAlwaysFatal`.
--   * Frame: `frame/frame.go`; `encode` is `Encode`, `decode` is `Decode`. Steps says what `decode`
--     tests, RoundTrip and Sound relate it to `encode`.
--   * FrameExt: `frameext/frameext.go`, with `FindUnknownCritical` and `FindExtension` in Lookup.
--   * CloseManager: `closemanager/closemanager.go`; a method of `*CloseManager` takes the record and
--     returns the new one with the action. Machine runs any sequence of the methods, Peers puts two
--     managers at the ends of one connection, Truncate is about `truncateMessage`, and Queries has the
--     accessors and the names.
--   * Handshake: `handshake/state_machine.go`, with Client and Server for its two machines. Each has
--     its diagram as a relation (Diagram), runs of its methods (Trace) and frame tables (Frames). A
--     reading of the clock is an argument. Names has the names of states and the texts of errors.
--   * Cbor: `cbor/cbor.go`. Head is `encodeHead`, `readArg` and `readArgCanonical`; Encode, Decode and
--     Canonical are `Encode`, `Decode` and `CheckCanonical`. A position in the input is the list of
--     the bytes that are left. `Limits` holds how many elements `make` can allocate. Access has the
--     accessors of `Value`, Decode.Typed is about the ranges of what is decoded. Canonical.Agree sets
--     `CheckCanonical` against `Decode`, Canonical.Written against `Encode`. Encode.Keys and
--     Decode.RoundTrip.Ordered are about the order of map keys.
--   * Pipeline: `pipeline/pipeline.go`. Phases has a function for each phase, Process composes them.
--     The context and the callbacks, which the caller implements, are records of functions. Names has
--     the names of phases.
--   * Messages: `handshake/handshake.go`. Keys is HKDF with what is derived by it, Session is about the
--     session id, Transcript is the transcript hash, Wire the client's hello there and back, over Canon,
--     which says what the CBOR decoder gives back for each message.
--   * Identity: `identity/identity.go`. Equal is about `constantTimeEq`, Verified about `Verify`,
--     Metadata, Sent, Signed and Wire about records and their capabilities as CBOR.
--   * Mldsa: `mldsa/mldsa.go` around the third-party library, which is a record of functions. Signing is
--     about signatures, Record about a record that is signed, sent and verified.
--   * ReplayCache: `replaycache/replaycache.go`, with `handshake_integration.go` in Checker. Grows and
--     Bound are about its size under any sequence of the operations, Held and Replay about nonces that
--     were let in, Fresh about those that were not, Orders about the orders of the loops, Evict about
--     `evictLRU`, Sweep about `EvictExpired`, and Distinct about the keys. Memory is what the cache
--     promises, and how it keeps the promise while it has room.
--   * Fixtures: `cmd/generate_interop_fixtures/main.go`. The inputs and the fixtures made of them, with
--     the messages and records in Peers; Generate is `main`, over an operating system that is a
--     parameter. Checked, Written and Agreeing are about the files.
--
-- A Go map is an association list, and the order in which a `range` loop visits it an argument, which
-- theorems take to visit each entry once. SHA-256, HMAC-SHA256 and the check of a signature are
-- arguments too: theorems assume of the hashes at most that they give 32 bytes, and of the signature
-- library what FIPS 204 says.
--
-- Fuel: `Cbor.Decode.decode` and `Cbor.Canonical.check_canonical` recurse on one more than the length
-- of the input, since every value takes a byte, and `FrameExt.decode` loops on the length, since every
-- extension takes eight. Where the fuel would run out the result is `err stuck`.
--
-- Ints are 64 bits wide, as on the platforms that the program is built for.
--
-- Not modelled: what is printed, with `hashDir` of the fixture generator, which only reads files back to
-- print their hashes; the texts of errors beyond those in the Names modules; tests and test data.
pub mod Base
pub mod Errors
pub mod Frame
pub mod FrameExt
pub mod Fixtures
pub mod CloseManager
pub mod Handshake
pub mod Cbor
pub mod Pipeline
pub mod ReplayCache
pub mod Messages
pub mod Identity
pub mod Mldsa
