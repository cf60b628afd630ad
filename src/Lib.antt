-- ===== src/Lib.antt =====
-- Verification of nameSPREAD, a name system for ad hoc networks with proactive routing (src/*.c of
-- the repository). A daemon runs on each station. It watches the routing table, asks the next hop of
-- each new route for the destination's name, answers and passes on such questions, and keeps the names
-- in /etc/hosts.
--
-- The program's parts and the files that model them:
--   Machine      the world of the daemon. Machine/Run gives a piece of C code its outcomes (a result,
--                undefined behaviour, exit, a loop that was cut off). Machine/World is the state: the
--                globals of src/namespread.c, the list nodes in the heap, the files, and what was sent
--                and logged. Machine/System is what the code relies on of the operating system and
--                the compiler, Machine/Cfu what it relies on of the bundled hash table library.
--   Text         C strings and the functions on them: strtok, strstr, strrchr, fgets, "%d".
--   Logger       src/logger.c: log_msg, get_timestamp.
--   LinkedList   src/linked_list.c, each function under its name. LinkedList/Chain says which list of
--                values a pointer stands for.
--   Hosts        the table of names: get_hostname and get_name_by_addr of src/namespread.c, cache_name
--                of src/nreq_responder.c, remove_name and copy_file_content of src/route_watcher.c.
--                Hosts/Table is the abstract table: its lines, the lookup and the removal.
--   Network      request_name of src/namespread.c.
--   Timers       next_free_timer_id of src/namespread.c and src/timer.c.
--   Pnr          the pending name requests: exists_in_list of src/linked_list.c, register_nreq of
--                src/route_watcher.c, respond_to_pnrs of src/nreq_responder.c. Pnr/Requesters
--                is the abstract view, the list of the requesters.
--   Responder    listen_for_nreqs of src/nreq_responder.c; one datagram is one step.
--   Watcher      watch_routes of src/route_watcher.c; one line of `ip monitor route` is one step.
--   Dump         print_hash_table of src/route_watcher.c and log_pnrs of src/logger.c.
--   Daemon       main and log_info of src/namespread.c. Daemon/Events is the daemon as one machine: its
--                events are the datagrams, the lines of `ip monitor route`, the timers' ends and the
--                rounds of log_info, in any order.
--   Protocol     the states that this machine comes to: the requesters of each address as an abstract
--                map, the timers and their ids, and the handlers' steps between such states.
--                Machine/Moves has a rule for each way to build code, Protocol/Primitives is what the
--                handlers (Protocol/Handlers) take of the operations on the tables and the network;
--                it is filled for the tables (Protocol/Requests), for the books of Protocol/Ledger (what
--                was sent, the sockets and the counters), for the states in which the log can be written
--                (Protocol/Exits), and for the count of the timers (Protocol/Matched); the last three
--                use the lemmas of Protocol/Slack and Protocol/Loose. Protocol/Loops and Protocol/Lines are
--                the loops of the two threads as sequences of handlings.
--   Stations     daemons side by side, each of which receives what another sends: two neighbours, and
--                three in a row.
--   Threads      what two threads share within a handler: `msg`, and the state that strtok hides, for the
--                calls of both in any order (Threads/Log: the log they write). Threads/Calls is
--                register_nreq call by call, Threads/Handlers what watch_routes and listen_for_nreqs do
--                at a new route and at a reply, so that two threads can take turns in them
--                (Threads/Races: in requests for one address, Threads/Apart: for two, with the rule of
--                Threads/Rely and Threads/Opening; Threads/Late: in a reply and a new route).
--   Tests        concrete stations, on which the theorems are applied.
-- The timer handler, the responder and the watcher share the pending requests (from an address to its
-- list of requesters), the table of timers (from an id to an address), the array of timer ids and the
-- file of names. A new route or a request from another station enters a pending request with a timer;
-- the timer asks again; a reply stores the name, answers the requesters and deletes the request.
--
-- Where a function is cut in several definitions, the cut stands where control branches or a loop
-- begins, so that each theorem speaks of one piece.
--
-- Bounds and fuel: a loop over a list has as many rounds as addresses have been handed out
-- (`heap.fresh`), which is more than a list has nodes (LinkedList/Chain). The retry of popen recurs on
-- the outcomes of the coming calls, of which finitely many fail. Addresses, counters and lengths are
-- unbounded numbers. total_nreqs, total_nreps_reveived, total_nreps and total_cached_names are `int`
-- in the source: what is said of them is of runs in which each stays below 2^31. The sizes of the
-- program's buffers are kept: fgets cuts longer lines, and a text that does not fit a local array is
-- undefined behaviour.
--
-- Not modelled: pthread_create. In Daemon/Events each event is handled without a break. In
-- Threads/Calls and Threads/Handlers one call of a function or of a table is one step, which is not
-- interrupted, start_timer and drop_timer included, and a handler begins where it knows its address;
-- what the threads do to each other in the shared `msg` and in the hidden state of strtok is modelled
-- apart from that (Threads). Also not: fclose, pclose and fflush; failures of asprintf, strdup, socket
-- and sendto; failures of timer_create and timer_settime, although the timers that have ended are
-- never deleted and use up those of the kernel; a NUL inside a line of /etc/hosts or of the routing
-- table, where strtok and strcmp stop and the functions of Text do not; the memory that asprintf and
-- strdup take. The bundled hash table library is an interface. What `cat /etc/hosts` prints is the
-- file as it is when popen succeeds. The simulation scripts are no part of the daemon.
pub mod Prelude
pub mod Text
pub mod Machine
pub mod Logger
pub mod LinkedList
pub mod Hosts
pub mod Network
pub mod Timers
pub mod Pnr
pub mod Responder
pub mod Watcher
pub mod Dump
pub mod Daemon
pub mod Protocol
pub mod Stations
pub mod Threads
mod Tests
