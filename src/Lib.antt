-- ===== src/Lib.antt =====
-- A verification library for dumbo_ms: models of its code, with the theorems that make it correct.
--
-- The repository runs asynchronous Byzantine fault-tolerant consensus. Its C code is the pairing
-- library under consensus/honeybadger/HoneyBadgerBFT/dependencies/pbc-0.5.14, on which the threshold
-- signatures and the threshold encryption of HoneyBadgerBFT stand; paths below are relative to it.
-- Paths of the Go consensus start from the root. The Python of HoneyBadgerBFT is not modelled.
--
-- Parts, and how they interact:
--   Prelude      the shared names, Boolean tests, lists over native numbers; Prelude/BitOr has the
--                law of `x |= b << s`, Prelude/Int integers, Prelude/Order the well-foundedness of the order.
--   Fin/Quorum   sums over nodes and the node that two quorums share.
--   Fin/Messages structure/normalstruct.go: RBCMsg, byte strings, and maps of counts.
--   Fin/RbcWithFinish consensus/fin/MVBA/rbcwithfinish: Broadcast, Handler and Follower are BC_f with
--                the locals of its handlers, RbcWithFinish/Leader is BC_l; each handler is a function
--                of a message and the state. RbcWithFinish/Network is one broadcast among the nodes
--                as a step relation; Votes, Follows, Routed, Leads, Counts and Turns say what a step
--                changes of ready and finish messages, Invariant and Agreement what holds in every
--                reachable state, Schedule runs a given order of messages, Repeats has the inputs at
--                which counts mislead.
--                Quorums shows that a quorum of ready messages is put out, Validity what a faulty
--                node can do with val messages.
--   Fin/Senders  messages that pass a test, counted by sender.
--   Fin/BinaryAgreement consensus/fin/MVBA/binaryagreement: Agreement is BA, Vals and Finishes are
--                the locals of two handlers; wait is either waiting loop of Launch, decide the end of
--                its round, handle_coin its coin; BinaryAgreement/Handlers has the other handlers.
--                Waits, Decisions, Finish and Exclusion have the theorems.
--   Fin/Mvba     the choice of a leader in consensus/fin/MVBA/sfmvba.go.
--   Fin/Driver   consensus/fin/conseneus.go: Outputs are the locals of Run that its goroutine fills in,
--                mark and store are the two turns of its round; wait_rbc_done and
--                check_input_rbc get the contents of the shared slice that their rounds find.
--                Driver/Bits, Packs and Unpacks have the bytes, Turns what holds between two
--                turns, Blocks and Inputs the theorems.
--   Fin/Merkle   consensus/fin/support/merkle-tree: the form of a path and VerifyPath. Merkle/Levels has
--                the paths of a tree of level hashes, Merkle/Binding two paths for one root.
--   Fin/ReedSolomon consensus/fin/support/reed-solomon: Coding is what the code calls of the libraries,
--                collect is the loop of Reconstruct; ReedSolomon/Prefix is about its bytes.
--   Fin/RbcByShards consensus/fin/RBC: Follower is the locals of the handlers of BC_f, RbcByShards/Leader
--                is BC_l. Truthful says which echoes are true, Stages what a round of handle_echo
--                does, Echoes and Forged are about its loop, Vals about send_val and handle_val,
--                Validity about both together.
--   Fin/Tests    runs of it, and its theorems at concrete inputs.
--   Net/Messages structure/normalstruct.go: ConsInMsg and ConsOutMsg as one record, sort.Slice as the
--                interface Sort, which Messages/Model meets.
--   Net/Buffer   network/priority/priorityqueue.go: what the two Push methods share. Buffer/Sums has
--                bytes and numbers, Bounds the limits, Exact what happens within them, Starved what
--                cutting does to the count of bytes.
--   Net/Send     SendBuf: HandleProtoMsg and the choice that AsyncSend makes.
--   Net/Receive  RcvBuf: Push, HandleProtoMsg and RegisterMsgCHByPriority; Receive/Registers is about a
--                registration, Receive/Runs about sequences of events.
--   Net/Tests    runs of them, and their theorems at concrete inputs.
--   Pbc/Darray   misc/darray.c and misc/darray.h. `struct darray_s` is the record Darray: `item` is the
--                allocated block, a list of cells of which an unwritten one is `none`; `count` and
--                `max` are the two counters. Each darray_x is the function x. Darray/Blocks proves
--                what the loops and memmove do to a block, Darray/Refine and Darray/Search relate
--                each operation to lists through the predicate Holds, Darray/Script does so for
--                sequences of calls.
--   Pbc/Symtab   misc/symtab.c over Pbc/Darray. symtab_put, symtab_has and symtab_at share one search
--                loop, `position`. The proofs use the lemmas of the array, not its definitions.
--   Pbc/Gmp      the interface to the GMP library (mpz_sizeinbase, mpz_tstbit); Gmp/Model meets it.
--   Pbc/Field    the interface to `struct field_s` of include/pbc_field.h, as far as exponentiation
--                calls it; Field/Power has powers by their definition, Field/Model two structures.
--   Pbc/Pow      generic_pow_mpz of arith/field.c with its sliding window; Pow/Bits reads exponents
--                bit by bit, Pow/Window has the proof.
--   Pbc/MultiPow element_pow2_mpz and element_pow3_mpz of arith/field.c.
--   Pbc/BaseTable element_build_base_table and element_pow_base_table of arith/field.c;
--                BaseTable/Words has the groups of bits, BaseTable/Laws the power.
--   Pbc/TinyFp   arith/tinyfp.c: words of 64 bits with their wrap-around written out. TinyFp/Arith has
--                the arithmetic, TinyFp/Bytes the byte strings, TinyFp/Wrap the inputs at which the
--                code is wrong.
--   Pbc/Mpz      the interface to GMP's integer arithmetic; Mpz/Sums has its consequences, Mpz/Model
--                meets it.
--   Pbc/Multiz   arith/multiz.c: integers and lists of multinomials as trees. Multiz/Eval relates
--                addition to values at a point, Multiz/Order has the comparison, Multiz/Negate
--                negation and subtraction.
--   Pbc/Structure the function pointers of `struct field_s` that extension fields call and fill in;
--                Structure/Ring, Units, Roots and Coding state the laws of rings, fields, square
--                roots and byte strings, Structure/Halves has half sums, Structure/Morphism maps
--                between rings, Structure/Model the field of three elements.
--   Pbc/Poly     arith/poly.c: poly_x on lists of coefficients. Poly/Eval, Shift and Product relate them
--                to values at a point, Poly/Trim has leading zeroes, Poly/Bytes byte strings;
--                Poly/Divide has division, gcd and inverse, with Rows, Remainder, Euclid and Inverse
--                for their theorems.
--   Pbc/PolyMod  arith/poly.c: polymod_x on arrays of coefficients and field_init_polymod.
--                PolyMod/Powers has the powers of x, PolyMod/Multiply the product.
--   Pbc/Quadratic arith/fieldquadratic.c: the functions fq_x and fi_x on pairs, field_init_quadratic
--                and field_init_fi. Quadratic/Semiring has the product of pairs, Quadratic/Rules the
--                ring, Quadratic/Inverse the field, Quadratic/Root and BaseRoot square roots,
--                Quadratic/Bytes byte strings.
--   Pbc/Generic  the default operations of arith/field.c on objects in memory; Generic/Alias and
--                Generic/Compare have their theorems.
--   Pbc/Digits   pbc_mpz_set_str and pbc_mpz_trickle of arith/field.c. Digits/Read has the reading of
--                digits, Digits/Written the round trip, Digits/Letters the letters.
--   Pbc/Tests    runs on small inputs, and each theorem at a concrete input.
--
-- Choices. Goroutines that loop over a channel are handlers that run on one message; a send on a
-- channel is an entry of a list, without its capacity; the closing of channels is left out. A C
-- `int` counter is a natural number; a bound on when it stays in range is a theorem. `MemUse` is a
-- natural number: Net/Buffer shows that it never goes below the bytes in the buffer. Exponents are
-- naturals: they are not negative. GMP is a parameter with the laws that its manual states. A
-- pointer to NULL and an index of -1 are `none`. An array cell read before it was written, or
-- outside the block, is `none` too. Asserts are compiled out in misc/darray.c (NDEBUG), so they
-- are not in the model. A loop is a recursion on the rounds left. The loop of field_init_tiny_fp
-- recurs on fuel: nine rounds, since a ninth byte would exceed a word, and its theorem shows that
-- they are enough; the printing loop of Pbc/Digits has one round more than there are digits, and
-- its theorem shows the same; the loops of poly_gcd and poly_invert recur on the length of the
-- divisor, which every round shortens. An `unsigned long` has 64 bits.
--
-- Not modelled: in consensus/fin the routers of the broadcast by shards (RBC) and its buffers for
-- later heights, the sending goroutines of binary agreement, the loop of MVBA, and the routing of
-- messages in the driver; in network the connections and the two other variants of the queue;
-- allocation failure and freeing, printing, random sources, the function pointers that field_init
-- of arith/field.c fills in, the parts of arith/tinyfp.c that only call GMP, multiplication and
-- byte strings of arith/multiz.c, parsing and printing of arith/fieldquadratic.c, and the rest of
-- the library.
pub mod Prelude
pub mod Pbc
pub mod Fin
pub mod Net
