-- ===== src/Lib.antt =====
-- bare-metal-architect: C programs on algorithms, data structures and systems, each with a `main`
-- of its own. There is no call from one program into another; what they share are idioms that each
-- program has a copy of: the string hash, chains with the new node behind the last one, flags and
-- nibbles in a byte. The development has a module for each idiom and one for each program.
--
-- Shared:
--   Prelude      Boolean tests, lists with native indices, C's integers, and `Outcome`: a call
--                returns (`done`), ends the process by `exit` (`exits`), or is undefined (`fault`: a
--                null pointer followed, an index out of range, a division by zero).
--   Text         C strings as their bytes before the NUL, strcmp, the hash function.
--   Bytes        checks of all values of a byte, BIT, the nibble macros.
--   Chains       appending behind a chain, the search along it.
--   Tables       buckets of chains by the hash of a name.
--   Arrays       arrays that hold a queue or a stack in their first cells.
--   Circular     buffers whose indices wrap around, of RingBuffer and ThreadPool.
--   Ensures      what holds of every call that returns, where no call faults.
-- Programs:
--   HashTable    data-structures/hash-table.c: table_create, table_insert, table_get, table_free.
--   Inventory    problems/rpg_inventory.c: adding, finding, equipping and consuming items.
--   Cargo        problems/cargo.c: the queue of containers, their inspection, the rails of the bay.
--   Bank         multithreading/banking.c: branches, accounts, deposits.
--   Vending      problems/vending_machine.c: the three slots and the additions to them.
--   Fan          bitwise/smarth_fan.c: the configuration byte of a fan and its commands.
--   RingBuffer   recap/ring_buffer.c: pushes, pops and the thread that reports a full buffer.
--   Stack        data-structures/stack.c: push and pop.
--   Dsu          graphs_bootcamp/micro-make.c and graphs/disjoint_subset.c: the disjoint sets.
--   BubbleSort   data-structures/bubble_sort.c: the sweeps over an array of cards.
--   InsertionSort  data-structures/insertion_sort.c: a deck with every card at its place.
--   Fcw          problems/fcw.c: the flags, engines and black box of an airplane.
--   ThreadPool   multithreading/tp_engine.c and pthread/thread_pool.c: the task queue, the workers,
--                the signal, the broadcast and the shutdown, as steps of any number of threads.
--   MinHeap      graphs/Dijkstra/Dijkstra-MinHeap.c: the heap of cities by distance.
--   Dijkstra     graphs/Dijkstra/Dijkstra.c: the graph of cities, its routes and the search, which
--                uses MinHeap.
--   BinaryTree   data-structures/binary-tree.c: insertion and the walk in order.
--   Arena        memory/arena.c and system-design-bootcamp/arena.c: the blocks that an arena hands out,
--                without and with a padding.
--   TaskGraph    graphs_bootcamp/micro-make.c: the tasks, their prerequisites, the search for a
--                cycle and the order of the execution; its unions are those of Dsu.
--   Traversal    graphs/BFS_and_DFS.c: the breadth-first search with its queue, the depth-first
--                search with its static marks.
--   Views        pthread/prod_cons.c: the table of views, the four lists, and producers and
--                consumers as steps under the mutex and on the semaphore.
--   Reconcile    pthread/reconciliation.c: the sources, their extraction, and the four threads in
--                any order of their steps.
--   TwoPointers  problems/find-sum-optimised.c and problems/greedy-logic.c: a pair with a given sum,
--                the largest area between two walls.
--   Compaction   problems/zero-gravity.c, problems/strip_vowels.c, problems/rem-array-duplicates.c:
--                the loops that keep some elements of an array in place.
--   DoublyLinked data-structures/double_linked_list.c: appends and the print from the tail, in a
--                structure with room for its members; dll_create allocates one without.
--   Vector       data-structures/dynamic_vector.c: the vector whose block doubles.
--   Printer      data-structures/queue.c: the five messages that wait for a printer.
--   Reversal     problems/phrase_flipper.c, problems/strip_vowels.c and problems/reverse_list.c: a
--                string, an array or a part of one that is turned round in place.
--
-- A C function becomes a function of the same name that takes the state and returns the new one;
-- a chain of nodes becomes a list, a null pointer `none` or `[]`, a pointer to a node its place.
-- The C library's allocation is a parameter: `alloc n` says whether the n-th allocation of the call
-- is granted. `char` is signed. The overflow of an `int` is a fault in TwoPointers and in Vector;
-- elsewhere `int` is wide enough for the values that the programs reach. The one-byte counters, the
-- flags and the balances of the bank wrap around as they do in C.
-- Some loops are not bounded by the code. The walk to the root of a disjoint set takes fuel, and f is
-- enough for n nodes when n < 2 ^ f, since the rank of a node grows with every step. The sweeps of the
-- bubble sort take fuel, and more than the square of the length is enough, since every sweep that
-- swaps leaves fewer inversions. The search of Dijkstra takes fuel: every turn lowers a distance or
-- empties the heap by a node, so that 10000000 is enough for distances of at most 999999; the loops of
-- its heap take the size as fuel. The recursion of has_cycle takes fuel, and more than the number of
-- tasks is enough, since every call that goes deeper marks a task. The loop of BFS takes
-- fuel, and more than the seven vertices is enough, since every turn takes one vertex from the queue,
-- which each enters once; the recursion of DFS marks a vertex with every call that goes deeper, so that
-- the same fuel is enough. The searches from both ends of an array and the
-- reversals of a string take one more than its size, since every turn moves an end; the print of a
-- doubly linked list takes as many as there are nodes. A pilot for whom no line ever comes keeps the
-- loop of declare_emergency running, which is a fault. All other loops end with the list or the array
-- that they run along. The search of Dijkstra ends the process where its heap of 20 nodes is
-- full; that graphs with few edges do not fill it is not proved.
-- Output, sleeping, the addresses that are printed and the frees at the end of the programs are not
-- modelled, but for those of the hash table. Of the threads there are the steps under the mutex, for
-- the ring buffer, the thread pools, the producers and consumers and the reconciliation; what a task
-- does is not modelled, nor is the largest value of a semaphore. The other programs of
-- the repository (the other graphs and arenas, accounts under a lock, sockets and the exercises on
-- pointers and memory) have no module.
pub mod Prelude
pub mod TaskGraph
pub mod Text
pub mod ThreadPool
pub mod Chains
pub mod Circular
pub mod Bytes
pub mod Tables
pub mod Arena
pub mod Arrays
pub mod Inventory
pub mod MinHeap
pub mod Ensures
pub mod Fan
pub mod Cargo
pub mod Bank
pub mod BinaryTree
pub mod Traversal
pub mod TwoPointers
pub mod Vector
pub mod Vending
pub mod Views
pub mod Compaction
pub mod Dijkstra
pub mod DoublyLinked
pub mod Dsu
pub mod HashTable
pub mod Stack
pub mod Printer
pub mod Reconcile
pub mod Reversal
pub mod RingBuffer
pub mod BubbleSort
pub mod InsertionSort
pub mod Fcw
