-- ===== src/Lib.antt =====
-- phactor is a PHP extension that implements the actor model: actors are PHP objects that run on a
-- fixed set of threads, share nothing, and send each other messages, which the extension copies out
-- of one thread's memory and into another's. This library models the extension's own logic, which
-- src/ of the repository holds in C, and states what makes it correct.
--
-- The parts, from the bottom up, each with the file that models it:
--
-- * src/ds/ph_hashtable.c, HashTable: a Robin Hood hash table with tombstones, from strings or
--   numbers to pointers. Its views and laws are in the folder HashTable: Entries (the abstract
--   view, entries up to order), Valid (well-formedness), Probe, Search, Insert, Resize, Delete, and
--   Laws and Clear (the table as a finite map).
-- * src/ds/ph_queue.c, Queue: a linked list with a pointer to its last node, over an explicit heap
--   of nodes. Queue.Chain and Queue.Fifo relate it to a list that grows at its end.
-- * src/ds/ph_vector.c, Vector: a growing array of pointers. Vector.Stack relates it to a stack.
-- * src/ph_string.c, PhString: counted strings; PhString.Equality is about `ph_str_eq`.
-- * src/ph_entry.c, Value: PHP values copied between threads, closures by `copy_user_function` of
--   Copy; Value.RoundTrip.
-- * src/ph_context.c, Context: the VM stack of a context. The C stacks are not modelled.
-- * src/ph_task.c and src/ph_message.c, Task: what threads and mailboxes queue. Memory has the
--   blocks that tasks, messages, entries and strings hold, and the functions that free them, with
--   what src/classes/actor.c and actor_system.c free of a message.
-- * src/classes/actor.h, supervisor.h and actor_system.h, System: the state that all threads share.
--   It is one record: the actors by address, the tables `actors_by_ref` and `actors_by_name`, each
--   thread's task queue, and the actors marked for each thread to free. System.Machine has the
--   commands on it: a command ends in a result and a state, faults where C code would read through
--   a pointer that leads nowhere or where an assertion fails, waits for a lock that is held, or
--   uses up its fuel.
-- * src/classes/actor.c and actor_system.c, the life of an actor: Removal
--   (`ph_actor_mark_for_removal`, `ph_actor_remove_from_table`, `perform_actor_removals`),
--   Messaging (`send_local_message`, `receive_block`, `process_message_handler`), Send
--   (`Actor::send`) and ActorSystem (`new_actor`, `message_handling_loop`,
--   `ActorSystem::__construct`). ActorSystem.Threads has the threads: `worker_function`, and
--   `initialise_actor_system` and `scheduler_blocking` of the main thread, as programs that take
--   turns.
-- * src/classes/actor_ref.c, ActorRef: refs and the creation of actors.
-- * src/classes/supervisor.c, Supervisor: crashes, restarts, the supervision tree and the detection
--   of cycles in it; Supervisor.Methods has the methods of the PHP class.
-- * src/ph_copy.c, Copy: what a new thread copies of the main thread's script. Copy.Zend has what
--   the file uses of PHP; Copy.Functions, Copy.Classes and Copy.Globals copy functions, classes,
--   and the included files, constants and settings, and Copy.Values the values in them.
--
-- The parts meet in the record System: a message goes from `Actor::send` as a task to the main
-- thread's queue; that thread looks the recipient up in a table and appends to its mailbox; if the
-- recipient waits, a resume task goes to its thread; the thread looks the actor up and switches to
-- it. A crash goes from the actor to its supervisor, which restarts it by a task for its thread, or
-- crashes in its turn. `receive_block` and `process_message_handler` give up the thread in the
-- middle and are two functions each. A thread's steps are the rounds of its loop, with the
-- constructors and destructors that run in them, what PHP code may do that it runs between two
-- switches of its context, and its changes and tests of the counts of threads. No actor calls
-- `ActorSystem::block`. System.Counters has the commands that leave the counts alone. Mailboxes and
-- task queues are lists in System, the contents of a queue in the sense of Queue.Fifo.
--
-- Numbers are natural numbers. An `int` that wraps has the 2 ^ 32 written out where it is counted
-- up or down (Base.Words); a `zend_long` is its 64-bit pattern. Loops over an array recur on the
-- rounds that are left. Recursion over the supervision tree, and the two breadth-first loops over
-- it, are on fuel: a tree that is too large for it, or a cycle, ends in `out_of_fuel`. Enough is
-- the height of the tree for terminations, one more for a crash and for each crash of a supervisor
-- that follows, and the number of its supervisors for the detection of cycles: these are the depths
-- of the recursions and the rounds of the loop. The fuel of `copy_ce` is how deep the classes that
-- a class names lead: where those are copied before it, 2 is enough, since the copy of a class
-- meets only classes that it finds. The fuel of `ph_queue_destroy` is the queue's size.
--
-- Parameters: PHP's string hash and the layout of its VM stacks (System.Platform), its serialiser
-- and the objects of closures (Value.Php, with the documented behaviour that
-- Value.RoundTrip.IsFaithful names), its copying of strings, arrays and syntax trees and its tests
-- of flags (Copy.Zend.Zend, with what copies promise in Copy.Zend.IsZend),
-- `zend_register_constant`, what `malloc` and `php_mt_rand_range` return (for Memory, a block that
-- is not in use: Memory.Release.IsMalloc), how a call of `receive` ends (Messaging.Ending), and the
-- PHP code that a thread runs within a round of its loop, constructors and destructors
-- (Messaging.Code), which may be any commands on the system. Where the threads are concerned it
-- leaves the counts of threads alone. PHP's structures are records of the fields that src/ph_copy.c
-- reads or writes, with the others as bits; a hash table is its contents in order, and strings and
-- blocks carry the thread in whose memory they lie; what the elements of an array or tree lead to
-- is not followed. The array of a table that is destroyed has no buckets, and a deletion of a name
-- from it is a fault. Memory is never exhausted. The locks of one actor, one queue and one vector
-- are taken and released within one function, so what they protect is one step; the lock of
-- `actors_by_ref` is a field.
--
-- Not modelled: PHP's own duplication of arrays and syntax trees, of which src/ph_zend.c holds
-- adapted copies, and which is a parameter; module start and shutdown (src/phactor.c); debug output
-- (src/ph_debug.c); the switch of C stacks (src/ph_context_switch.S) and their allocation; property
-- handlers and the getters of `ActorRef`, which only hand values to PHP; `on_modify` of a setting;
-- what an actor's own blocks are, beyond Memory, and the end of a thread's PHP context.
pub mod Copy
pub mod Base
pub mod PhString
pub mod HashTable
pub mod Vector
pub mod Queue
pub mod Value
pub mod Context
pub mod Task
pub mod System
pub mod Removal
pub mod Supervisor
pub mod Memory
pub mod Messaging
pub mod ActorRef
pub mod Send
pub mod ActorSystem
pub mod Tests
