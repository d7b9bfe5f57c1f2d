-- ===== src/Lib.antt =====
-- Stellar-Bench: matrix factorisation by a parameter server (ps.cpp) and its workers (worker.cpp),
-- which exchange blocks of the two factor matrices over RDMA.
--
-- How the program works. The server cuts both matrices into blocks (partitionBlock), one of each for
-- a worker, and hands each worker a pair in turn. On both ends a send thread (rdma_sendTd) copies a
-- pair into a registered buffer and raises can_send; a poll thread (client_on_completion of
-- rdma_two_sided_client_op.cpp) then posts the RDMA write and lowers it. On the other end a poll
-- thread (server_on_completion of rdma_two_sided_server_op.cpp) counts the message and answers, and
-- a receive thread (rdma_recvTd) takes the pair out of the buffer. A worker improves its pair by
-- gradient descent (FakeSubMF) and sends it back; main counts the iterations.
--
-- The files.
--   Base           native numbers with Boolean tests, signed counters, lists, chains that may fault
--   Block          struct Block and the matrix sizes of mf_common.h
--   Partition      partitionBlock of ps.cpp (Tiling, Cover)
--   Memory, Wire   the bytes of a message and how the send and receive threads copy it (Image,
--                  RoundTrip, Capacity); a buffer is a list of bytes, and an element of a block is
--                  the 64 bits of a double
--   Context        struct client_context, conn_context and message, InitContext
--   Ps             the guards of ps.cpp and a round of the loops of main, rdma_sendTd, rdma_recvTd
--   Worker         the same of worker.cpp, and FakeSubMF in Descent, with the arithmetic of double
--                  as an argument (Doubles) and the numbers drawn as a function
--   Delivery       a round of a send thread, the write, and a round of the receive thread, on the
--                  bytes, in both directions
--   Round          all interleavings of the threads of the server and n workers: a link is the
--                  counters and flags of one direction, a Move is a move of one thread on it, a
--                  Step one of the whole system under the guards of Ps and Worker
--   Io, Verbs      threads that call librdmacm and libibverbs: a log of the calls, and a Library that
--                  answers each call as a function of the log
--   TwoSided       the handlers, event loops and poll threads of rdma_two_sided_client_op.cpp and
--                  rdma_two_sided_server_op.cpp, and both ends together (Exchange,
--                  Session); ServerSetup and ClientSetup are about the set-up
--   Cluster        the whole program: the state of the server and n workers (Ps, Worker) with what is
--                  under way on each connection. A Turn is a round of a thread of ps.cpp or worker.cpp,
--                  which is taken as a whole, or a Net, one access of a poll thread or a write of the
--                  adapter; Handlers compares these with the handlers of TwoSided. Refinement takes a
--                  run to Round by way of Abstraction (Rounds, Pairs, ServerTurns, WorkerTurns, Safety);
--                  Delivered follows the bytes (Channel, Underway, Fifo, Logs, Links, DownEvents,
--                  UpEvents), BlocksDelivered the blocks (Payloads, Blocks, BlocksSent, Stored,
--                  BlocksRead), and Laid their places in the matrix (Store, Taken, Sends, Turns, Along);
--                  Stuck takes the lost wake-up of Round/LostWakeup to the program
--   Startup        the first part of both mains and rdma_sendTd_loop and rdma_recvTd_loop of ps.cpp and
--                  worker.cpp (Wiring, Counters), the blocks with their first values (Blocks with Fill,
--                  Places), and all of it together, as the first state of a run (Program)
--   TestPrograms   the loops of test_send.cpp and test_recv.cpp, with the connection of Cluster between
--                  them (Rounds, Invariant, Progress, Overwrite), and the addresses (Threads)
--   Gpu            a thread of the kernel of cuda_kernel_mf.cu (Footprint, Thread; Agree and Alike for
--                  what it reads), and gpu_mf of gpu_mf.cu (Host, Ids, Launches) with the threads of
--                  a launch in any order (Meet, Order, AnyOrder)
--   Sockets        wait4connection of ps.cpp and worker.cpp
--   Fallible       functions that return an int early
--   OneSided       rdma_common.cpp (Common), server_rdma_op.cpp (Server) and client_rdma_op.cpp
--                  (Client, Remote, Compare), with Answers as the libraries
-- Tests in each part hold the concrete inputs.
--
-- Conventions. An access outside of an object, or through a null pointer, is a fault, none or fault.
-- A thread that waits for another one is waiting: where the code sleeps and tests again, the model
-- runs the rest once the flag is up. The iteration counters are integers without a bound; the server
-- exits after 1200 iterations, far below 2^31. An index or a counter of the kernel that is too large
-- for an int is a fault. Sizes that the code passes as uint32_t are taken modulo 2^32.
--
-- Fuel. The polling loop of process_work_completion_events has fuel, a bound on the number of polls:
-- if at most so many polls in a row come back without any, that number and one, times the completions,
-- are enough. So has the loop of
-- client_connect_to_server: one more than the attempts that fail is enough. So has the loop of
-- wait4connection: one more than the calls of bind that succeed. The loops of the kernel
-- have the height as fuel, enough for steps of at least one. The other loops
-- are structural: client_remote_memory_ops, which never ends, on the list of its rounds, the others on
-- the number of blocks, samples, elements, workers, events or completions.
--
-- Assumed of code outside of the repository, and written as arguments or hypotheses: malloc returns
-- memory of the size asked; an RDMA write puts the bytes of one buffer into the other and completes
-- on both ends; what librdmacm and libibverbs answer; ntohl undoes htonl; the arithmetic of double.
--
-- worker.cu, from which the Makefile builds the worker, has the text of worker.cpp but for the place of
-- one include, so what models worker.cpp models it.
--
-- src and dst of client_rdma_op are null as declared, and nothing in the repository sets them: the
-- functions that use them (Remote, Compare) are modelled for any pointer, with the fault on null.
--
-- Not modelled: testHybrid, which does not compile; all printing; the interleaving of single accesses
-- by the threads of one launch on the GPU, which here run whole, one after another.
pub mod Base
pub mod Block
pub mod Partition
pub mod Memory
pub mod Wire
pub mod Context
pub mod Ps
pub mod Worker
pub mod Io
pub mod Verbs
pub mod TwoSided
pub mod Fallible
pub mod OneSided
pub mod Delivery
pub mod Round
pub mod Cluster
pub mod Fill
pub mod TestPrograms
pub mod Startup
pub mod Gpu
pub mod Sockets
