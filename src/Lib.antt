-- ===== src/Lib.antt =====
-- Yggdrasil, an operating system for BEAM-like processes that run verified bytecode: the
-- host-tested crates of its core. A module is decoded and verified when it is loaded; verified code
-- runs over tagged terms in the bump heaps of processes, on physical frames that a bitmap hands
-- out, and talks to devices through pairs of rings.
--
-- Parts and files:
-- - Ring (crates/ygg-rings/src/lib.rs): `Ring`, a single-producer single-consumer queue. `push`,
--   `pop`, `len`, `is_empty` and `is_full` are the methods; the atomic cursors are the numbers that
--   they hold. Ring/Index has the arithmetic of cursors that wrap, Ring/Refine the queue it stands
--   for.
-- - FrameBitmap (crates/ygg-alloc/src/lib.rs): `FrameBitmap`, a bitmap of frames in use with a
--   next-fit cursor. A word of 64 bits is the list of its bits. FrameBitmap/View sees it as a set
--   of frames; /Fresh, /Alloc, /Contig and /Ranges are about `new`, `alloc`, `alloc_contig` and the
--   range operations.
-- - Bytecode (crates/ygg-bytecode/src/lib.rs): Bytecode/Op has the opcodes (`mod op`), /Skip the
--   operand walk (`skip_operands`), /Codec `Module::encode` and `Module::decode`, /Utf8 the test of
--   `core::str::from_utf8`, written from the definition of UTF-8, /Layout an independent table of
--   the operands of each instruction, /Roundtrip the codec's round trip, /Builder the
--   `CodeBuilder`, and /Labels and /Emitted its references to labels.
-- - Verify (crates/ygg-bytecode/src/verify.rs): `verify` and `verify_fn`, arm by arm. Verify/Cursor
--   is `Scan`, /Table and /Fits say what the arms check, /Sizes and /Walk compare it with the
--   operand walk, /Flow is the control flow of a function as a relation, /Round and /Safety carry
--   the loop invariant to it, /Total is about its termination.
-- - Term (crates/ygg-term/src/lib.rs): `Term` as its word; Term/Immediate reads back integers,
--   Term/Store is memory as bytes and Term/Readback what is read after a write, Term/Heap the arena
--   `Heap`, Term/Objects its new objects, Term/Pairs and Term/Lookup the making and the search of
--   maps, Term/Copy the walks `copy_term`, `term_size_words` and `evacuate`, /Shapes well-formed
--   terms and /Copies their copying, Term/Eq the walk `eq`.
-- - Interp (crates/ygg-interp/src/lib.rs): `run_function`. Interp/Api is the trait `SystemApi`,
--   with the kernel behind it as a parameter, over a type of its states that a client chooses, such
--   as those in which all loaded modules are verified, Interp/Fetch the frame, Interp/Allocate
--   `alloc_term`; the arms of the match stand in Interp/Data, /Numbers, /Binaries and /System, the
--   loop in /Run. Interp/Hoare, /Reads, /Clean and /Arms say how many bytes the parts of an
--   instruction read, /Takes, /Variable and /Control where the other instructions go, /Round and
--   /Safety carry it to verified code.
-- - Atoms (kernel/src/atoms.rs): the table of atoms, `intern` and `name`.
-- - Proc (kernel/src/proc.rs, kernel/src/percpu.rs): the process table and the cores as a record
--   `Kernel`, `mark_dead` and `deliver_fragment`; Proc/Span is `ProcHeap` and Proc/Quota its quota,
--   Proc/Signals messages, monitors and `reap`, Proc/Spawn `spawn_inner`, Proc/Sched `check_wheel`
--   and the loop `run`, Proc/Receive a pass of `recv_where`, and Proc/Scan and /Pass what it does.
--   Proc/Steps has the steps of the cores as a relation, /Boot the start; /Count, /Inv, /Keeps,
--   /Reaps, /Steal, /Dispatch, /OnCore, /Leave and /Starts are about where processes are, /Gone and
--   /Links about the dead.
-- - Ports (kernel/src/ports.rs): the table of buffers, `buf_create` to `buf_get`, as they run
--   alone; Ports/Holds has what a core does under one lock as a step, /Kept and /Effects say what
--   single changes do, /Pinned is about pinned buffers, /Roundtrip about writing and reading.
-- - Prelude: lists, machine integers, and `Outcome`: a result, an error, a panic, or fuel that ran
--   out.
--
-- Numbers: a uN is a natural number below 2^N; the wrap-around of the u32 cursors of a ring and of
-- the u64 sums of the bitmap is written out. An i32 and an i64 are integers.
--
-- Fuel: the loop of the verifier gets one more than the bytes of the function, since each round
-- reads at least one; `alloc` and `alloc_contig` get one more than the number of frames, which
-- bounds the candidates; the collector gets one more than the words of the heap. The interpreter
-- and the walks over terms take their fuel as an argument; Term/Shapes says how much a copy needs.
--
-- Interleaving: the cores of the kernel take turns at each hold of the table lock. The look-up of a
-- process, what follows a switch back, a signal, a spawn and a monitor are one step each. For a
-- spawn this is coarser than the code: `spawn_inner` queues the child after it has let go of the
-- table, so that another core can signal the child in between, which the model leaves out. In the
-- table of buffers each hold of one of its locks is a step, and other cores may come between the
-- two halves of `buf_create`, `buf_take` and `buf_pin`. The process that a core has taken off a
-- queue stands in the field `next`, so that other cores may act before it is looked up; an action
-- that a process leaves for its scheduler is an argument. Numbers of processes stay below 2^62,
-- which a core can shift by two bits.
--
-- Not modelled: the interleaving of the two sides of a ring and its memory order, the JIT compiler;
-- of the kernel the devices, page tables and the module loader, the rings of the ports, the context
-- switch and `maybe_compact`; in the steps of the cores, what a process does to its own mailbox and
-- heap is any change to them; `fmt_term`, which prints; `sentinel_returners`; in the interpreter,
-- the cells that a failed attempt to allocate a list leaves in a heap, and the order in which a
-- failed attempt to make a map leaves the vector of its pairs.
pub mod Prelude
pub mod Ring
pub mod FrameBitmap
pub mod Term
pub mod Bytecode
pub mod Verify
pub mod Interp
pub mod Atoms
pub mod Proc
pub mod Ports
