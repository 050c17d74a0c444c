-- ===== src/Lib.antt =====
-- A model of PETAce-Verse, a library of two-party oblivious transfers, and what holds of it.
--
-- The program. Base transfers (src/verse/base-ot) give two parties short random messages: the
-- sender two for each transfer, the receiver the one its choice bit picks. The extensions stretch
-- them: a pair of objects takes the two sides of the base transfers (`set_base_ots`), with the
-- roles exchanged, and then runs sessions over a network. The IKNP extension
-- (src/verse/two-choose-one/iknp) makes 1-out-of-2 transfers of random messages; the KKRT
-- extension (src/verse/n-choose-one/kkrt) makes 1-out-of-n transfers, in which the sender computes
-- the message of a transfer at any value with `encode`. Both send one bit matrix from receiver to
-- sender and turn it with `matrix_transpose` of src/verse/util/common.h.
--
-- The files.
--   Common: shared names; outcomes (a value, an exception or undefined behaviour), loops over an
--     index range, lists, bits of numbers.
--   Util/Memory, Util/Bytes: vectors of 128-bit blocks as bytes (src/verse/util/common.h). A block
--     is the number that its bits stand for, lowest byte first, as on the x86 the sources require.
--   Util/Transpose: `matrix_transpose`, with the SSE2 instructions it is written in.
--   Net: the network of PETAce-Network as a reliable byte stream in each direction. A party is a
--     process that sends, receives and ends; Net/Run makes steps of two parties, in any order, and
--     counts the bytes that each has sent and received. Net/Confluence and Net/Schedules say
--     what one run tells of all others, Net/Compose puts runs together, Net/Crashes is about
--     processes that end in undefined behaviour and Net/Waits about parties that wait for ever.
--   Crypto: the generators (PRNG) and the hash of PETAce-Solo, as a parameter. Its laws (IsCrypto)
--     say that outputs are bytes and as many as asked for, nothing about randomness.
--   Pairing: how base transfers tie the generators of the two parties together.
--   Curve: the elliptic curve of PETAce-Solo, as a parameter. Its laws (IsCurve) are those of a
--     commutative group on which the keys act, and that 33 bytes hold a point; the latter only for
--     the points of a kind that the user of the laws names, which includes every public key.
--   NaorPinkas: src/verse/base-ot/naor-pinkas-ot/naor_pinkas_ot.{h,cpp}; NaorPinkas/Points has the
--     loops, NaorPinkas/Setup joins the base transfers to both extensions.
--   Iknp: src/verse/two-choose-one/iknp/iknp_ot_ext.{h,cpp}. The records are the two classes,
--     `send`, `receive` and the two `set_base_ots` their operations; Iknp/Matrix has the loops,
--     Iknp/Sizes and Iknp/Wide are about sizes that no check refuses, Iknp/Unequal is about parties
--     built for different numbers of transfers, Iknp/Again about a second `set_base_ots`.
--   Kkrt: src/verse/n-choose-one/kkrt/kkrt_nco_ot_ext.{h,cpp}, in the same way, with `encode` in
--     Kkrt/Encode; Kkrt/ReceiverSide has the receiver's half of a session, Kkrt/Sizes and
--     Kkrt/Unequal are about sizes that no check refuses or that differ, and Kkrt/Again about a
--     second `set_base_ots`.
--   Factory: src/verse/verse_factory.h, creators registered by scheme, and in
--     Factory/Registrations the six factories that the header fills.
--   Interfaces: the abstract classes (src/verse/base-ot/base_ot_sender.h and the five others) as
--     records of a state and its methods; Interfaces/Creators has the `create_` functions of the
--     three protocols, which the factories register.
--   Outputs: what the messages of the protocols are like, whatever bytes the network delivers.
--   Sessions: calls of a method in a row; Sessions/Protocols has the three protocols as pairs of
--     methods that keep two objects ready for each other.
--   Programs: example/*.cpp. Programs/NpOtExample, IknpOtExample and KkrtOtExample are the three
--     examples, Programs/Menu is the `main` of example.cpp, which reads selections (Menu/Calls) and
--     runs the examples; the files named Run and Runs are about runs by both parties. An Environment
--     has the random bytes that a party draws.
--   Bench: bench/verse_bench.cpp, one file for each benchmark; Bench/Params and Bench/Main are the
--     `main` of bench/bench.cpp after its command line is parsed. A benchmark runs on the state of
--     its party (Party): the counters of the network object, the readings of its clock, the lines
--     of the log file and the errors printed. Bench/Metered puts a run of the two parties inside.
--   Examples: concrete inputs, over a small concrete generator, hash and group.
--
-- Conventions. A `std::vector` is a list and `v[i]` out of range a fault; a fault of a party is a
-- crash. A vector that a loop fills in order is built in order. Loops count on the size of their
-- range, so no fuel is needed. An exception leaves an object as it was. Sizes are `std::size_t`: the
-- products and sums of sizes that the sources do not first allocate a vector of wrap at 2^64, as
-- written out in `matrix_transpose`, in `send_block` and `recv_block`, in the areas of the matrices
-- that are sent and in the rounding of the KKRT sizes; that a vector the sources allocate fits the
-- memory is assumed, so an index into it does not wrap. Ports are cast to 16 bits. The bytes that
-- `recv_data` waits for arrive once the other party has sent them. The generator objects that the
-- sources share by pointers belong to one party each, so the records hold their states. The KKRT
-- loops pass one output vector through all transpositions, as the sources do.
-- `&v[i]` is an access to `v[i]`, so a row that is generated into a vector of no blocks is a fault.
-- `NetFactory::build` of PETAce-Network is a parameter of both programs, which opens the connection
-- that its argument names or throws; a run of two parties over it is a run over their byte streams,
-- those of one connection after the other where a program opens several.
--
-- Not modelled: secrecy, which is no statement about the values; how connections are opened, the
-- parser of the command lines and the text that a line of the log is printed as; the tests and the
-- build. The clocks of the benchmarks and `atoi` are parameters.
pub mod Common
pub mod Util
pub mod Net
pub mod Crypto
pub mod Pairing
pub mod Curve
pub mod NaorPinkas
pub mod Factory
pub mod Interfaces
pub mod Outputs
pub mod Sessions
pub mod Programs
pub mod Bench
pub mod Iknp
pub mod Kkrt
pub mod Examples
