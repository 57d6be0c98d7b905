-- ===== src/Lib.antt =====
-- The communication and memory management software of OpTiMSoC, a tiled system on chip in which
-- every tile runs its own program and tiles exchange packets over a network: the C libraries under
-- src/soc/sw/baremetal-libs/src, and the kernel under src/soc/sw/os/gzll-kernel/src.
--
-- libmp carries messages and channels between tiles. A receiver owns an endpoint, a ring of slots of
-- words. A sender asks the receiver's tile for a slot, sends the words in packets, and completes the
-- message; the interrupt handler of the receiver's tile serves these requests, and the program
-- there takes complete messages out of the ring. libruntime keeps the page directories of threads and
-- the lists of the kernel gzll, whose task directories say where the tasks of an application run.
--
-- Prelude and its children: tests on ℕ as Booleans, 32-bit addition, subtraction and multiplication
-- (each `% 2 ^ 32`), lists by position, `|` on separate bit fields, and `Run`, the outcome of code
-- that may return, spin for ever (`blocked`) or touch memory it does not own (`fault`).
-- Sync: the compare-and-swap of the processor's support library, a parameter (`Cas`) with what its
-- documentation says: it returns the old word, and stores where that is the expected one.
-- Endpoint: libmp/endpoints.h and the part of libmp/endpoints.c over `struct endpoint_buffer`.
-- `push` is endpoint_push, `pop` endpoint_pop, `alloc` endpoint_alloc, `write` endpoint_write,
-- `write_complete` endpoint_write_complete, `msg_recv` endpoint_msg_recv, and so on. The slots are
-- indices into the one area that `datafield` points to. `push` and `pop` take the list of what other
-- cores do between the load and the compare-and-swap of each round.
-- Registry: the rest of libmp/endpoints.c, the linked list of handles by address in memory.
-- Control: `msg_handler` is control_msg_handler of libmp/control.c, with one function for each
-- request. Sender: the requests of libmp/control.c. A `Tile` holds what these functions share.
-- Mp: the functions of libmp/mp.c, as they are compiled without RUNTIME.
-- Transfer: `deliver` hands the packets of one tile to the handler of another.
-- Vmm: libruntime/vmm.c. `vmm_map` is optimsoc_vmm_map, `vmm_unmap` optimsoc_vmm_unmap, `vmm_lookup`
-- _optimsoc_vmm_lookup, `virt2phys` and `phys2virt` the two translations. Memory holds blocks of
-- words by their address; the loops on load-linked and store-conditional take the list of attempts.
-- Dma: libbaremetal/dma.c, the slots of the DMA driver.
-- MpSimple: libbaremetal/mp_simple.c, the receive loop over the registers of the network interface, and
-- the ranks of tiles of libbaremetal/util.c.
-- Taskdir: src/soc/sw/os/gzll-kernel/src/taskdir.c, the task directory of an application. `view` is
-- the mapping from tasks to ranks and nodes that it stands for.
-- Runtime: the threads, the scheduler and the timers of libruntime, a thread as the address of its control
-- block. `Runtime.Scheduler` has scheduler.c (`schedule` is _optimsoc_schedule), `Runtime.Threads` thread.c
-- (`thread_create` is optimsoc_thread_create, and so on), `Runtime.Timers` timer.c and the tick, `Runtime.Boot`
-- the start-up; `Runtime.Prepare` says what the control block of a new thread holds. Each queue has the entries of its list in a memory of its own. A context switch is a copy
-- between the context of a thread and that of the core's exception.
-- PagePool: src/soc/sw/os/gzll-kernel/src/page.c. Boot: the start of applications in app.c there, each start
-- of a node as a value. Node: the nodes of node.c and the list of applications of app.c.
-- Vmm.Tlb: the exception handlers of vmm.c, which fill the registers of the memory management units; a register
-- is a record of its fields. Vmm.DirCopy: the copy of a directory from another tile,
-- with its pages.
-- LinkedList: libruntime/list.c. `list_add_tail` is optimsoc_list_add_tail, and so on; the entries lie
-- in memory by their address, and one that was freed is not there any more.
-- Tests: each theorem at concrete values.
--
-- Bounds. Words are numbers below 2 ^ 32, and the code's arithmetic on them wraps around. Walks of
-- the lists of handles and of threads take the number of steps they may make, and a walk that needs
-- more is `blocked`, as is a loop whose list of rounds ends; the loop that sends a message is given
-- one round more than the message has words. Loops with a fixed number of rounds count down from it.
--
-- Assumptions. Memory for a new block is always there, its address is a parameter, and no block that
-- is in use starts there. The network delivers packets in order and whole.
-- The pages that a copy of a directory takes from the pool lie apart from the tables. A call of the runtime, the
-- tick of the timer included, is one step: disabling the interrupts and enabling them again is left
-- out, and so is the output of traces and of progress. libmp is the one compiled without RUNTIME,
-- whose threads do not wait.
--
-- Not modelled: thread switching in assembly, the start of a node, the messages and the system calls of the
-- gzll kernel, the host library and its tools, and third-party code (external/glip, external/opensocdebug).
pub mod Prelude
pub mod Sync
pub mod Endpoint
pub mod Registry
pub mod Control
pub mod Sender
pub mod Transfer
pub mod Mp
pub mod MpSimple
pub mod Dma
pub mod Vmm
pub mod Taskdir
pub mod LinkedList
pub mod Runtime
pub mod PagePool
pub mod Boot
pub mod Node
mod Tests
