-- ===== src/Lib.antt =====
-- randbotd: a peer-to-peer certificate authority and naming daemon. Nodes gossip signed frames, keep an
-- event log for every originator, vote on the trust of domains, declare authorities, and purge domains. A
-- node keeps what it accepts in tables, and lets other nodes hold its authority in custody.
--
-- The parts and the code that each models (paths from the repository's root):
-- - Base: lists, results, big-endian bytes, text as code points, and `Crypto`, the record of the primitives
--   of sha2 and ed25519_dalek, and of std's floating-point logarithm, with their laws. SHA-256 is any
--   function to 32 octets.
-- - Pow (src/crypto/pow.rs): PowEngine and leading_zero_bits. `scan_from` and `reseed_from` are the two
--   loops of solve_with_changing_field.
-- - Domain (src/pki/purge/mod.rs): validate_domain_name; `check_label` is the body of its loop.
-- - Scope (src/pki/catalog/scope.rs): coverage scopes and the subtree test.
-- - Ca (src/pki/ca.rs): subject data (`validate_subject` is CaSubjectMetadata::validate) and declarations
--   (`new_ca` is CaDeclaration::new).
-- - Chain: what a hash-linked chain of records is, shared by votes, purges and rotations. Chain/Latest has
--   the check against the latest record of a table, which insert_vote in
--   src/storage/db/subtables/vote_subtable.rs and insert_purge and insert_key_rotation repeat.
-- - Vote (src/crypto/vote/mod.rs): VoteRecord. `check_link` and `check_work` are parts of
--   validate_against_chain, `admit_vote` and `seal_vote` of new_signed.
-- - Purge (src/pki/purge/mod.rs, src/pki/purge/pow.rs): DomainPurgeRecord, in the same shape. A purge is
--   checked against a declaration of Ca and a name of Domain.
-- - Gossip (src/net/frame.rs, src/net/gossip.rs): GossipMessage; `new_message` is new, `verify_message` is
--   verify.
-- - History (src/net/history.rs, the ranges of src/storage/db/sync.rs): EventLogEntry; `verify_entry` is
--   its verify_signature, and accepts the signature of a frame of Gossip.
-- - Storage (src/storage/db/mod.rs, src/storage/db/merkle.rs): Database; `append_event` is composed of
--   `stage`, `resolve` and `ingest`, its three branches, and `drain` is the loop over staged events.
--   Sync models the reads for peers in src/storage/db/sync.rs, src/storage/db/merkle.rs and
--   src/storage/db/mod.rs: missing entries, the halves of a range, reputation. Open models the loop of
--   Database::open over the decoded lines of the log, and Vectors the vectors of ranges that a node sends.
--   Lacking tells, without the code, which events a peer lacks.
-- - Agility (src/crypto/agility.rs): key pairs and signatures of each algorithm. `Suites` is the record of
--   the primitives of p384 and the post-quantum crates.
-- - Offer (src/pki/catalog/offer.rs, src/config.rs): offers, the daemon's networks, and catalogs with their
--   hash. Offer/Networks has CaDeclaration::validate_against_config of src/pki/ca.rs.
-- - Phonebook (src/net/phonebook.rs): the peers by address, their roles and scores.
-- - Rotation (src/pki/rotation/mod.rs): proofs of possession and of the rotation of keys; `new_proof` is
--   KeyRotationProof::new.
-- - Swarm (src/pki/swarm/mod.rs): contracts, delegation requests, proofs of capabilities, activations. The
--   octets that each signs are `contract_bytes`, `request_bytes`, `proof_bytes` and `activation_bytes`.
-- - Crl (src/pki/crl.rs, src/pki/cert/serial.rs): revocation lists and serial numbers. A walk over the DER
--   form returns `none` where the source panics on a slice.
-- - Tables (src/storage/db/subtables/): the tables beside the log, one child for each file: Votes (with the
--   index of src/crypto/vote/cluster/mod.rs), Purges, Rotations, Offers, Authorities (ca_subtable.rs),
--   Revocations (the lists of cert_subtable.rs) and Custodians. `check_...` is what an insertion tests,
--   `store_...` the change it makes in memory, and `persist` the write that follows.
-- - Broadcast (src/net/router/broadcast/): the handlers of packets, on a `Node`, the state that the tasks of
--   GossipRouter share. Custodian and Delegation are the two parts of
--   src/net/router/broadcast/custodian.rs. A handler gets the packet, the node's own key where it reads one,
--   the time and the certificate it fetched, and gives the node after it and what it sends.
-- - AntiSpam (src/net/router/anti_spam.rs): bans, drill nonces and saturated originators; `Call` and `run`
--   are the sequences of its calls.
-- - Examples: the theorems at concrete inputs, with toy primitives that satisfy the laws.
--
-- Conventions. A fixed array of octets is a list; where its length matters a predicate states it. A u32 or
-- u64 is a natural number and its wrap-around is written out, as in a release build. The maps of the log and
-- of AntiSpam are functions; a table is a list of keys and values in the order of insertion, since the source
-- also walks over it.
-- An error keeps the value that its message prints. A write to disk takes its outcome from a list of
-- Booleans in the state, so every failure pattern is covered; locks are not modelled, since each operation
-- holds the log's lock throughout. JSON is a parameter: of an equivocation proof, of a reason or a scope that
-- is hashed, and of a packet, whose decoder `Wire` is any function to an option. Parameters are also the
-- phonebook with what the handlers ask and tell it (Broadcast takes any, Phonebook is the source's), the
-- mock certificates of custodians, and of std the lower case of a text and the floating-point logarithm.
--
-- Fuel. The nonce searches of the source loop until they succeed; here they take fuel, and return `none`
-- when it runs out. The theorems on them give the fuel that suffices, from any solution. The tables are
-- finite, and nothing else takes fuel.
--
-- Not modelled: sockets, the router's tasks and its dispatch, the local socket server, the command line,
-- files and their formats, the building of certificates and chains in DER with the table of chains, keys
-- given in hexadecimal, and the floating-point ratings of voters and clusters. Of the logarithm in the
-- difficulties only its whole part below 2^47 is assumed, where rounding does not reach the next number.
pub mod Base
pub mod Pow
pub mod Chain
pub mod Domain
pub mod Scope
pub mod Ca
pub mod Purge
pub mod Vote
pub mod Agility
pub mod Offer
pub mod Phonebook
pub mod Rotation
pub mod Swarm
pub mod Crl
pub mod Tables
pub mod Broadcast
pub mod Gossip
pub mod History
pub mod Storage
pub mod AntiSpam
pub mod Examples
