-- ===== src/Lib.antt =====
-- IPA, a prototype of the helper servers of Interoperable Private Attribution: three helpers
-- compute on values that are shared among them, so that no helper learns a value.
--
-- The parts of the program and the files that model them. Paths are from the repository's root.
--
--   Prelude, Algebra    Shared names, the arithmetic that protocols ask of a field, the laws of a
--                       commutative ring and a solver for equations in one (Algebra/Solver).
--   Helpers/Role, Helpers/Assignment
--                       src/helpers/mod.rs: the three roles and the ring they stand in, identities
--                       of helpers, the assignment of roles.
--   Helpers/Buffers     src/helpers/buffers/unordered_receiver.rs: messages read from a stream of
--                       chunks. `Spare` and `OperatingState` are records, the methods are functions
--                       of the record that return the next one and the wakers they wake.
--   Helpers/Buffers/Ordering
--                       src/helpers/buffers/ordering_sender.rs: `State`, `Waiting` (with its shards)
--                       and `Sender` hold the records of that file and its methods; each poll of
--                       `Send`, `Close` and `OrderedStream` is a function to the next sender, and
--                       `Trace` is any sequence of them.
--   Helpers/Stream      src/helpers/transport/stream/input.rs: `BufDeque` (Deque) and
--                       `RecordsStream` (Records). What a stream answers is a list.
--   Ff/PrimeField       src/ff/prime_field.rs: the operators of `field_impl!`, with every
--                       intermediate reduced modulo 2 to its width, and the byte form.
--   SecretSharing       src/secret_sharing: replicated shares, semi-honest and malicious, and
--                       src/test_fixture/sharing.rs: their reconstruction and validation.
--   Protocol/Exchange, Protocol/Computes
--                       One round of communication among the helpers. A protocol at one helper is
--                       what it sends and a function of what arrives; `exchange` runs three of them
--                       against each other, and a value that nobody sends is awaited forever.
--   Protocol/Basics     src/protocol/basics: multiplication with known zeros, reveal, reshare, the
--                       test for zero, the choice by a bit, sums of products, known values.
--   Protocol/Boolean    src/protocol/boolean: xor, or, saturating sums bit by bit, and the comparison
--                       of a shared value with a known one (Comparison); mod.rs and
--                       bitwise_equal.rs: the product of many shares in rounds and the tests that
--                       rest on it (Zeroes); bitwise_less_than_prime.rs: the comparison of shared
--                       bits with the prime of the field (LessThanPrime); add_constant.rs: the sum
--                       of shared bits and a known number (AddConstant).
--   Protocol/Prss       src/protocol/prss and src/helpers/prss_protocol.rs: the exchange of keys, the
--                       state of an endpoint, and the values that it draws. `Crypto` holds what the
--                       cryptographic libraries provide.
--   Protocol/Context    src/protocol/context/validator.rs and src/protocol/basics/mul/malicious.rs:
--                       the message authentication codes of malicious security, their check, and
--                       the multiplication that feeds them.
--   Query               src/query/state.rs, src/query/processor.rs and src/query/completion.rs: the
--                       states of a query, the requests to a helper, and their interleaving where a
--                       request awaits (`Query/Server`).
--   Tests               Runs at concrete inputs.
--
-- How they interact: the protocols send and receive through channels that deliver in order and once,
-- which is what the receiver and the ordering sender of Helpers/Buffers are for; the randomness that
-- they take is what the endpoints of Protocol/Prss draw; the query processor assigns the roles in
-- which the protocols run; the protocols compute with the field operations alone, so that they run
-- over any field of src/ff and, in proofs, over expressions.
--
-- Conventions. `debug` tells a build with debug assertions from one without. A panic, an error and
-- an endless wait are values (`Outcome`, `Handled`, `Polled`). Shared randomness is an argument: a
-- replicated sharing, of which nothing is assumed but that neighbours agree on it. Loops are
-- recursive on the list they run over. `receive_all` polls with fuel, one for each chunk and byte
-- and one more: every poll but the last uses up a chunk or the bytes of a message; `collect` does the
-- same for records. `gather`, which joins chunks, has a round for each chunk, one for a chunk that is
-- split, and one for the last test. `multiply_rounds` has as many rounds as there are shares, each of
-- which halves their number; the logarithm of it is enough. `significant_bits` halves a number of at
-- most 128 bits, in as many rounds.
--
-- Not modelled: secrecy (what a helper can learn), sampling, step names, the network and encryption,
-- the query tasks, and the protocols that are composed of the modelled ones (src/protocol/sort,
-- src/protocol/attribution, src/protocol/ipa and others).
pub mod Prelude
pub mod Algebra
pub mod Helpers
pub mod SecretSharing
pub mod Ff
pub mod Protocol
pub mod Query
pub mod Tests
