-- ===== src/Lib.antt =====
-- XAIR: an intermediate representation for lifted machine code, with a builder, a concrete executor,
-- a verifier, a canonicalizer, a loader of binaries and a decoder of x86 instructions. This library
-- models src/xair.c, src/xair_binary.c and src/xair_x86_decode.c, with their headers
-- include/xair/xair.h, include/xair/xair_binary.h and src/xair_x86_decode.h, and proves what follows.
--
-- The parts, and the files that model them:
-- - Status: xair_status. A function that fails returns `err`, with the state that it leaves where the
--   C code has written to it.
-- - Ir/Types, Ir/Opcode: xair_type and xair_opcode, their constructors and tests.
-- - Module/Data, Grow, Build: struct xair_module and the functions that add blocks, parameters, values
--   and operations to it (xair_block_create, xair_block_add_param, xair_build_const_u64, add_op and the
--   others). Each of them takes the module and returns its result with the module that it leaves.
-- - Module/Numbering: structural value numbering, the hash table by which add_op finds an operation
--   that is there already.
-- - Module/Terms, Freeze: the terminators over the module's shared array of arguments, and
--   xair_module_freeze. Module/Metrics: the metrics and the fingerprint. Module/Sharing, Outcome,
--   Capacity: the proofs about the builder; Frozen: those about freezing.
-- - Verify: verify_op, the check of one operation's types, and in Verify/Blocks xair_verify_module, with
--   the marks of the values that are available in a block.
-- - Exec/Scalar, Flags, Fold: the arithmetic on 64-bit words, the packed flags, and fold_constant_op,
--   by which the canonicalizer replaces an operation on constants.
-- - Exec/State, Memory, Op, Run: the concrete executor, from its values and paged memory to
--   xair_exec_run. It reads the module of the builder, and never writes to it. Exec/Keeps, Resume,
--   Bytes, Agree, FlagBits, Slices: the proofs about it.
-- - Sound: the proofs about the executor on verified modules, from the values of a state in Sound/State
--   over one operation (Shape, Operation, Memory, Store, Step), a block (Verified, Block) and the
--   transfer of arguments (Transfer) to the whole run (Run). Start: the state at its creation.
-- - Canon: the canonicalizer. Canon/Local: the order of operands and the folding of constants over a
--   module; Live: the marks of live values; Compact: the renumbering of what is live, and
--   xair_canonicalize_module. Reach and Roots: the proofs about the marks; Swap and Reorder: the
--   exchange of operands; Outcome and Counts: the whole.
-- - Binary: the loader of PE and ELF files, from the readers of little-endian numbers in Binary/Bytes
--   over the parsers in Binary/Pe and Binary/Elf to the lookups of Binary/Load. A read past the end of
--   the file is the result `fault`, which Binary/Safety shows not to occur. Binary/Lookup: the proofs
--   about segments, reads and images.
-- - X86: the decoder of src/xair_x86_decode.c. Inst: decoded instructions; Reader: the reads of bytes;
--   Operand: ModRM and SIB bytes; Decode: the forms of instructions and xair_x86_decode_mode. A decoder
--   takes the bytes and an offset, and returns a value with the offset after it. Reads, Form,
--   Instruction, Operations, Switch, Prefixes, Stream, Padding: the proofs about it.
--
-- Conventions. size_t has 64 bits. Arithmetic on the values of a program, on the offsets and
-- addresses of a file, in hashes and in the number of memory's generation writes its wrap out, and
-- so do the differences that the canonicalizer reports. Numbers of elements in memory, positions
-- among them, and the statistics that count them one at a time are natural numbers. Null pointers
-- have no counterpart: the arguments that C tests for NULL are there. Names are the characters
-- before the NUL. Arrays with their counts are lists, and a capacity is a number beside them. The
-- outcome of each allocation and the sizes of records are the host's, parameters of the functions
-- that allocate, so that the theorems hold for every pattern of failures. The file's bytes are an
-- argument of the loader, and are fewer than 2 ^ 64.
--
-- Bounds and fuel. The loop of grow_array doubles a capacity that is not 0, so as many rounds as the
-- needed count do (Module/Capacity). The probes of the value numbering table are as many as its slots,
-- as in the code's lookup. xair_exec_run takes its step limit as its measure, and every loop inside a
-- step goes over a list. The page offset of an address is its remainder by 4096. mark_live_value recurs one
-- value deeper only after a mark, so one more than the marks is depth enough (Canon/Reach). The loop over
-- REX prefixes takes a byte in each round, so one more than the bytes do (X86/Prefixes).
--
-- Not modelled: the printer, the ratio of operations to instructions and the copy of the value numbering
-- counters in src/xair.c; the table of decoder backends;
-- the lifter (src/xair_frontend.c) and the VEX adapter (src/xair_vex.c), which use the builder and the
-- decoder; file input, destructors, and the programs under tools/ and tests/.
pub mod Prelude
pub mod Status
pub mod Ir
pub mod Module
pub mod Exec
pub mod Verify
pub mod Binary
pub mod Sound
pub mod Canon
pub mod X86
