-- ===== src/Lib.antt =====
-- A model of ssmp, a C library that passes messages between the processes of one machine over shared
-- memory, and of the benchmarks that use it, with theorems on both.
--
-- Every process has an id below `ssmp_num_ues_`. For each ordered pair of processes there is one buffer of
-- one message, whose state says whether a message is pending: the sender waits for it to be empty and fills
-- it, the receiver waits for it to be full and empties it. A process can receive from one other, from any
-- other, or from those of a color, which a color buffer lists. Barriers let all processes of a color wait
-- for one another. Big messages go in chunks through one chunk for each sender. The code is split into
-- src/ssmp*.c, which calls the functions of the architecture (src/arch) and of the platform
-- (src/platform), the ports.
--
-- The files and what they model (state, operations):
--   Base and its children: lists, tests and integers over the native numbers, families of numbers, and the
--     outcomes of a call (return, access out of bounds, exit, still waiting when the fuel is out).
--   Message: `ssmp_msg_t` with its union, the buffers by the id of the other process, and the test and
--     release of a buffer with USE_ATOMIC and without (include/ssmp.h, include/ssmp_x86.h).
--   Poll: the two waiting loops of the ports, a spin on one test and a scan of buffers. What the other
--     processes do to the memory before each look is an argument, `env`, so the theorems on a call hold
--     whatever the others do.
--   Generic, Xeon, Opteron, Niagara: the operations of src/platform/generic, xeon, opteron and niagara:
--     `send`, `send_is_free`, `send_no_sync`, `recv_from`, `recv`, `recv_color` and `recv_color_start`,
--     named as in the code without `ssmp_` and `_platf`. The static `start_recv_from` is an argument and a
--     part of the result. Xeon has the socket tables, Opteron the pointers that its prefetches read, and
--     Niagara the short messages of include/ssmp_sparc.h.
--   Channel: one buffer of the port for Niagara with a sender and a receiver as a step relation, a double
--     word at a time, in every interleaving.
--   Slot: one buffer of the generic port in the same way, with USE_ATOMIC and without, where the order in
--     which `memcpy` stores the words is a parameter. The state is the lowest byte of the last word, so
--     a message is received with the state that the buffer has while it is copied. Slot/Calls leads from
--     the functions of Generic to these steps.
--   ColorBuf: `ssmp_color_buf_init_platf` of src/arch/x86/ssmp_arch.c, with `malloc` as a parameter.
--   Sparc: the start of a process, the color buffers and the barrier of src/arch/sparc/ssmp_arch.c. Its
--     `ssmp_barrier_wait_platf` (Sparc/Wait) is a call of one process while the others change the barrier.
--   Barrier: `ssmp_barrier_init` and `ssmp_get_barrier`, the counting loop of `ssmp_barrier_wait_platf`
--     (src/arch/x86/ssmp_arch.c), and the rest of that function as a step relation of `n` processes.
--   Tile: the start of a process and the participants of a barrier in src/arch/tile/ssmp_arch.c (Tile,
--     Tile/Boot), and the operations of src/platform/tilera (Tile/Port) over the network of the TMC
--     library, which is the interface of Tile/Udn.
--   Layout, Startup: the shared memory and its regions, the buffer of each pair of processes, and on x86
--     `ssmp_init_platf` and `ssmp_mem_init_platf` with the answers of the system as a parameter.
--     Startup/Ready is the loop at the end of `ssmp_mem_init_platf`, which waits until all processes have
--     said that they are initialised, and Startup/Start that loop after the rest of the function.
--   Exchange: Startup, Layout and Generic together: a message between two processes through the shared memory.
--   Mailbox: the abstract mailbox of one letter, which Channel/Refine and Slot/Refine refine.
--   BigMessage: `ssmp_send_big_platf` and `ssmp_recv_from_big_platf`, which the ports share: their rounds
--     in turns (BigMessage), the two calls with their loops on `state` (BigMessage/Calls), and the rounds
--     of both processes a byte at a time in every interleaving (BigMessage/Race). `send_big` and
--     `recv_from_big` of Generic, Xeon, Opteron and Niagara are the calls with the port's chunk.
--   Broadcast: `ssmp_broadcast` of src/ssmp_broadcast.c, with `ssmp_send` as a parameter.
--   Helpers: waiting for cycles and pauses, and `pow2roundup` (Helpers/Powers), of src/ssmp.c, and the
--     random numbers of include/ssmp.h (Helpers/Random).
--   Bank: benchmarks/bank.c: the options and their checks (Bank/Options), the processes that run servers
--     (Bank, Bank/Servers, Bank/Sequence), a server from its start to its end (`bank_dsl`, Bank/Run), a
--     round of a server with its buffers (Bank/Lost), the requests of a client (`bank_app`, Bank/Client)
--     and the messages at the end of a run (Bank/Exit).
--   ClientServer: benchmarks/client_server.c: the messages of a client, the server that waits for the last
--     message of each client, and both together for every order in which the messages arrive.
--   OneToOne: the loops of the sender and of the receiver in benchmarks/one2one.c and benchmarks/cs.c, and
--     the check of the first big message in benchmarks/one2one_big.c (OneToOne/Big).
--   BarrierTest: the loop of benchmarks/barrier_test.c in all processes, over Broadcast, Generic and the
--     steps of Barrier.
--   Measurements: the macros of include/measurements.h that count ticks between two places of a program,
--     and the report of prof/measurements.c.
--
-- Integers are natural numbers, with the wrap-around of `uint32_t` and `uint8_t` written out; signed
-- 32-bit integers are their patterns. Pointers into the buffers are the ids that the buffers have in
-- `ssmp_recv_buf` and `ssmp_send_buf`; Layout says which place in the shared memory that is.
--
-- Fuel: a waiting loop of a call is a recursion on fuel, one for each look or each return to the start of
-- a scan. Twice the number of buffers and one is enough for a scan while a message is pending; for a spin,
-- one more than the number of looks until the test succeeds. The step relations have no fuel. The
-- loop of SSMP_INC_ALIGN has 64 rounds, which is enough as it ends at a multiple of 64.
--
-- Of the machine: the memory is sequentially consistent, which the fences of the barrier provide and, for
-- a buffer or a chunk between two processes, the total store order of SPARC and x86. `memcpy` stores the
-- bytes of a chunk in their order and the words of a message in an order that is a parameter. A failed
-- test by compare-and-swap changes nothing.
--
-- Not modelled: the calls of the operating system and of the TMC and numa libraries (what the code relies
-- on is a parameter), the clocks, floating point and printing, so also the figures of the reports, the end
-- of a process on x86 and SPARC, the options of the benchmarks other than the bank, and the functions
-- that only call another function with the same arguments.
pub mod Base
pub mod Bank
pub mod Barrier
pub mod BarrierTest
pub mod BigMessage
pub mod Broadcast
pub mod Channel
pub mod ClientServer
pub mod ColorBuf
pub mod Exchange
pub mod Generic
pub mod Helpers
pub mod Layout
pub mod Mailbox
pub mod Measurements
pub mod Message
pub mod Niagara
pub mod OneToOne
pub mod Opteron
pub mod Poll
pub mod Slot
pub mod Sparc
pub mod Startup
pub mod Tile
pub mod Xeon
