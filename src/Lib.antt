-- ===== src/Lib.antt =====
-- PayMage: private payroll and private payments on Stellar.
--
-- The program's contracts keep money and secrets apart: commitments to notes stand in Merkle trees,
-- nullifiers mark the notes that were spent, and zero-knowledge proofs, checked by a verifier
-- contract, tie both to the public amounts that a token contract moves. This library models the
-- contracts whose state carries that, operation by operation, over one model of the Soroban host.
--
-- The parts, and the code that each models:
--   Base        lists and maps over the native numbers, signed integers; no code of its own.
--   Host        what the contracts ask of the host. An entry point is an action on the contract's
--               world, and its outcome is a result with a new world, an error value, or a trap
--               (a panic, a failed `require_auth`, a failed call). An error and a trap carry no
--               world, because the host rolls the invocation back. The proof verifier, the token
--               contracts and the authorisation are fields of a record or arguments; IsToken names
--               the one assumption on a token, that a transfer moves the amount.
--               Groth16Proof is that of contracts/types/src/lib.rs.
--   Poseidon    contracts/soroban-utils/src/poseidon2.rs and constants.rs: the modulus, the
--               compression with its range checks, the 33 hashes of empty subtrees. The
--               permutation is the host's and a parameter; Permutes says that it answers with
--               field elements, IsZeroTable that the table in the code is that of the permutation.
--               Sample is a concrete permutation for the tests.
--   Merkle      the loop over the levels that the pool and the membership contract share (Path),
--               the root by recomputing the whole tree (Spec), and the lemmas that relate the two
--               (Incremental, with Leaves and Empty for appending and for the empty tree).
--   Pool        contracts/pool/src/merkle_with_history.rs (Tree) and pool.rs: storage, errors and
--               getters (State), I256 amounts (Amounts), canonical inputs and proof verification
--               (Verify), transact (Transact), constructor and setters (Admin), and the contract
--               as a whole with the worlds that it reaches (Contract).
--   Membership  contracts/asp-membership/src/lib.rs.
--   NonMembership  contracts/asp-non-membership/src/lib.rs, the sparse tree of excluded keys: storage,
--               search and verification (Defs), insert_leaf (Insert), delete_leaf (Delete), sparse
--               trees as data and how the storage holds one (Smt), the search in storage against
--               that in the tree (Search), and the answers of find_key and verify_non_membership
--               (Verify). For insert_leaf: the bits of keys (Bits), trees with one more leaf (Grow,
--               Grown), what the search says of a key (Present), the loop (Rebuilt, Added), and the
--               call as a whole (Inserted). perm₃ is the permutation at width 3.
--   Registry    contracts/public-key-registry/src/lib.rs.
--   Planner     app/crates/core/tx-planner/src: the search for notes that reach an amount
--               (Combination, for plan/combination.rs), the plan of merging and paying
--               transactions (Plan, for plan/mod.rs), and the session that runs a plan and keeps
--               the wallet in step (Session, for execute/mod.rs), with the loop that drives it in
--               app/crates/platforms/web/src/client/transact.rs. Amounts is the part of
--               app/crates/core/types/src/amounts.rs that these use: a u128 and an i128 with checked
--               arithmetic. Sample is a sort for the tests.
--   Field       the field elements of app/crates/core/types/src/amounts.rs and their conversions
--               from amounts, beside the pool contract's. BN254_MODULUS_BE, which the code reads as
--               the modulus, has the value of BN254_PRIME.
--   Prover      app/crates/core/prover/src/merkle.rs, the client's tree over the leaves that it knows:
--               the code (Merkle/Defs), its levels (Levels), the root (Prefix), paths and proofs
--               (Siblings, Proof). Full is circuits/src/core/merkle.rs, which the client passes on,
--               Same compares the two, and Client puts the tree beside the pool's.
--               Sparse is app/crates/core/prover/src/sparse_merkle.rs, the client's copy of the sparse
--               tree: the code (Defs), what it does to a tree that it holds (Correct), and the
--               contract beside it (Agree).
--               Flows is app/crates/core/prover/src/flows.rs, which builds a transaction: the notes and
--               their hashes (Defs, with crypto.rs), transact and the flows that call it (Build), and
--               the balance (Balance). The source of randomness is the state; the permutations, the
--               encryption and the digest are parameters.
--   Groth16     contracts/circom-groth16-verifier/src/lib.rs, over the host's curve operations and
--               the key's bytes, both parameters (Curve, VerificationKeyBytes).
--   Payroll     contracts/payroll/src/payroll.rs: storage, events and lifetimes (State), the
--               administrator's calls and the queries (Admin), run_payroll (Run), withdraw
--               (Withdraw), and the contract as a whole (Contract).
--
-- How state and operations correspond to the code: a storage key is a field of the storage record,
-- `none` where the key is not set; a key with an argument is a map. Events are listed newest first.
-- A long function of the code is split at its own numbered or commented steps, one definition for
-- each, in the order of the code. A 256-bit integer, an address and a 32-byte hash are natural
-- numbers; each check against a modulus, a width or a limit is written out where the code has it.
-- Conversions between U256, bytes and field elements of the same value are the identity.
--
-- Bounds. The loop of is_known_root has no counter in the code; its model stops after 90 rounds,
-- one for each slot of the ring, and traps after that: from any slot of the ring, 90 steps modulo
-- 90 come back to it, which is where the loop of the code ends. A tree has at most 32 levels, so
-- that its indices stay below 2^32.
--
-- The planner. The order of equal amounts after sort_unstable_by_key is not specified, so the sort is
-- a parameter; IsSort says that it rearranges the notes and puts their amounts in ascending order.
-- The two pointers of the scan for two notes are the left one and the gap to the right one, which
-- every round makes smaller. The search for three and more notes runs down the list of candidates,
-- with the limit of 5000 visits of the code. A panic of an index out of range is a trap, as on the
-- host. The results of prove_and_submit are a list that the loop takes
-- one by one; a plan has at most nine steps, so that its counters fit.
--
-- The worlds that a contract reaches are those after its constructor and any sequence of
-- successful calls, by any callers, with changes that other contracts make to the tokens in
-- between. What the pool reads of other contracts may change from call to call.
--
-- Not modelled: the archival of entries whose lifetime ends, resource limits, the encodings to XDR
-- and the Keccak digest of them (a parameter), the arithmetic inside the circuits and that of the
-- curve. The nodes of the sparse tree stand under their hashes, and what two nodes with one hash
-- would do to each other is left open: the results on it take a world whose storage holds a tree. What the client in app/ has
-- besides the planner, its amounts, its Merkle trees and the building of a transaction has no model
-- here: the loop of sparse_merkle.rs that splits a field element into bits (taken as the contract's,
-- which gives the same bits), the texts for the witness calculator, the making of proofs, the
-- encryption and its storage above all.
pub mod Base
pub mod Host
pub mod Poseidon
pub mod Merkle
pub mod Membership
pub mod NonMembership
pub mod Registry
pub mod Planner
pub mod Pool
pub mod Groth16
pub mod Field
pub mod Prover
pub mod Payroll
