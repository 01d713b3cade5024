-- ===== src/Lib.antt =====
-- User-space threads: a verification library for thread.c, interrupt.c, malloc369.c and common.c.
--
-- The program is a threads library on getcontext, setcontext and a timer signal. thread.c keeps a
-- table of threads and a ring of ready ones, and builds sleeping, waiting, locks and condition
-- variables on one function that switches, thread_yield. interrupt.c masks the signal and turns it
-- into a yield. malloc369.c accounts for the memory of thread.c; common.c measures time.
--
-- Prelude is what the other files share: tests on numbers, the C type `int` as its pattern of 32
-- bits (Prelude/Word), results that may end the process (Prelude/Halting), what holds of a result
-- if there is one (Prelude/Postcondition).
--
-- Queue is `queue_t` of thread.c with its operations; Queue/Fifo is the list that it stands for,
-- and Queue/Abstract the quotient of the valid queues by their entries.
--
-- Machine is the state: the globals of thread.c, the signal mask, and the objects in memory by
-- address. A context is the mask and the stack of open calls; Machine/Switch is setcontext.
--
-- Interrupt is interrupt.c, and its handler stands in Step.
--
-- Thread has thread_init, thread_create and get_thread_any; Thread/Yield has thread_yield,
-- handle_death, thread_kill, admin_mode and thread_exit.
--
-- Wait has the wait queues and thread_wait, all of whose answers are in Wait/Answers; Lock has the
-- locks and condition variables, Lock/Balanced puts them on top of malloc369.c, and Lock/Parts cuts
-- the functions that make and destroy them at the places where a signal can come.
--
-- Step is what a call does when the call in it returns. The children of Step are about whole calls:
-- an exit or a kill with a waiter (Waited, Killed), the exit of the last thread (Exit) and one
-- behind which another thread goes on (Succeeded), turns among threads that yield (Fair) or are
-- preempted (Preempt), a lock or a signal that passes to the thread that was woken (Handover),
-- waiting with nothing else to run (Alone), the timer (Handler), entries that outlive their threads
-- (Stale).
--
-- Malloc is malloc369.c, and Malloc/Ledger the live blocks that a client of it keeps in mind. Clock
-- is the times of common.c, Fatal its handlers for fatal signals.
--
-- Calls puts the parts together: the calls that a thread's own code can make, the moves of the
-- process (a call, a signal of the timer, a call that goes on), and the states that moves reach
-- from thread_init, before which there are no wait queues, locks or condition variables and
-- administrative_mode is off.
--
-- wait_queue_create, wait_queue_destroy, lock_create, lock_destroy, cv_create and cv_destroy do not
-- block the signal. Such a call is one move where no signal comes inside it. For one in which a
-- signal does come, the stretches between the calls of malloc369 and free369 are moves of their
-- own, and between them control is in the thread's own code. That code is free to make any move, so
-- these moves come in every order, the ones of thread.c among them. malloc369 and free369 are not
-- cut: a signal inside them is not modelled, and what is said of the states that the process
-- reaches asks that none comes there.
--
-- The children of Calls say what every move keeps; the predicates for that are Thread/Inv (the
-- table, the ready queue and the stored contexts) and Thread/Masks (the signal mask and the wait
-- queues), each kept by Thread/Keeps, Wait/Keeps, Wait/Leaves, Lock/Keeps and Lock/Create.
--
-- That a thread that can run has an entry in the ready queue is Thread/Scheduled, kept by the files
-- of that name in Wait, Lock and Calls as long as that queue has room; Calls/Turn joins it with
-- Step/Preempt. That threads' own code goes on with the signal unblocked and with
-- administrative_mode off is Thread/Open, kept by the files of that name.
--
-- The files named Separate are about the wait queues of locks and condition variables, each a queue
-- of its own; the files named Vacant about the wait queue of a free lock, for which Thread/Objects
-- says that the functions of Thread leave the objects of clients alone. Calls/Wakeups joins the
-- two.
--
-- A function that may switch is cut at each call that may switch: the part behind the call is a
-- definition of its own, and a frame on the stack names it. So a stored context is a value, and it
-- can be loaded more than once, as thread_exit does with the context of thread 0. Where thread 0
-- loads its own context there, the thread_yield that stored it has returned, and the process ends
-- with `bad_context`, as it does where C is undefined. Threads' own code is not part of the
-- program: control comes back to it with the empty stack, and it may make any call. It is
-- interrupted by `deliver` of Step, which takes what clock_gettime answers as an argument.
--
-- A thread slot is an index of a function, of which the table has the first THREAD_MAX_THREADS;
-- where the process starts, the slots behind them hold threads that do not exist.
-- The loops of get_thread_any and thread_wakeup take fuel, one round more than the queue has
-- entries, which is enough since a round takes an entry.
-- Not modelled: khash.h, a copy of another library, whose calls are the parameter KHash; malloc and
-- free of the C library, the parameter Libc; the text of messages; the test programs. In thread.c
-- the allocator is the parameter Allocator, which Malloc.malloc369_allocator fills.
pub mod Prelude
pub mod Queue
pub mod Machine
pub mod Interrupt
pub mod Thread
pub mod Wait
pub mod Lock
pub mod Step
pub mod Malloc
pub mod Calls
pub mod Fatal
pub mod Clock
