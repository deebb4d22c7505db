-- ===== src/Lib.antt =====
-- Verification of NetServe, a modular TCP and HTTP server in C over libuv.
--
-- The program: a module manager (src/modules) holds the modules, initializes and starts them in the
-- order of their registration, and stops and cleans them up. The modules are a configuration store
-- (src/config), a logger, pools of memory blocks (src/memory), a thread pool (src/thread), network and
-- HTTP servers and a database layer. They meet in the manager's callbacks `init`, `start`, `stop` and
-- `cleanup`, and in global functions such as `config_get_int` and `memory_pool_alloc`. src/main.c
-- registers them and runs the event loop. Beside them stand libraries: parsers of JSON and XML, and
-- messages between threads (src/thread) and processes (src/ipc).
--
-- The files:
--   Prelude      shared names, C strings as lists of bytes, `strcmp`, lists over the native numbers.
--   Modules      src/modules/module_manager.c. The array of modules is a list, and the callbacks act on
--                a world `W`. `register_module`, `unregister_module`, `get_module`, `start_all`,
--                `stop_all` and `shutdown` are the functions module_manager_*; `init_one`, `start_one`,
--                `stop_one` and `cleanup_one` are the bodies of their loops. Registry, Lifecycle,
--                Shutdown, Ready
--                and Dependencies hold the proofs.
--   Memory       src/memory/memory_pool_module.c. Pool has the free list of one pool, linked through a
--                heap of `next` pointers; Service the requests over the four pools; Module the life
--                cycle. FreeList, Growth, Reuse, Requests and Returns hold the proofs.
--   Threadpool   src/thread/threadpool_module.c. What runs under `queue_mutex` is one function, and
--                Steps has the interleavings of submitters, workers and owner as a step relation.
--                Order compares the pool with a queue of two entrances; Shutdown is about its end and
--                its start.
--   Config       src/config/config_module.c. Store has the items, setters and getters, Text the
--                reading of a line, File the loader and the writer. Lookup, Types, Lines, RoundTrip and
--                Numbers hold the proofs.
--   Json         src/json/json_parser_module.c. Text has the writing and the parsing of strings, Value
--                the values with `json_clone`, `json_free` and `json_stringify`, Store the operations
--                on arrays and objects (json_array_*, json_object_*, `json_merge`), Input and Parser
--                the parser. Strings, Freeing, Clones, Objects, Merging, Shallow, Lengths, Progress and
--                Parsing hold the proofs.
--   ThreadComm   src/thread/thread_comm_module.c. Queue has `enqueue_message` and `dequeue_message`, Table
--                the state and `thread_comm_init`, Threads the registration of threads, Messages sending,
--                receiving and broadcasting, Management what acts on a queue from outside, Mutexes
--                the named mutexes. Priority, Delivery, Deadlock and Lookup hold the proofs.
--                `global_mutex` is a flag, and a call that locks it twice `hangs`.
--   Http         src/http/http_module.c. Url has `url_decode` and `parse_url`, Request
--                `parse_http_request`, Routes the list of routes, Response the responses and what
--                `send_response` writes. Decode, RequestLine, Dispatch and Sizes hold the proofs.
--   Logger       src/log/logger_module.c. The queue, `log_internal_sync`, `log_internal_async` and the
--                steps of `logger_worker_thread`; the output is a list of events. Runs has the
--                interleavings of callers and worker, Order the proof on them, and Full is about a
--                full queue.
--   Database     src/db/database_module.c. Connections, queries and results; Pool has the pool of
--                connections and the life cycle, Clients and Columns the proofs.
--   Xml          src/xml/xml_parser_module.c. Text has the escaping of strings, Attributes the attributes
--                and their parser, Pieces the parsers of tags and leaves, Elements `parse_element` and
--                `xml_parse_string`. Escaping, Lookup and Loop hold the proofs on strings and
--                attributes. Markup says which texts stand for which trees, Tags and Reading follow
--                the parser through them, and Documents has the results.
--   Network      src/net/network_module.c, and in Enhanced src/net/enhanced_network_module.c. Handles are
--                addresses, and the state keeps which are open and which are closing. Handles has lemmas on
--                lists of handles, Clients the steps of the callbacks, Closing is about the stop of the
--                module. System runs the server beside the thread pool, and Received and Requests
--                hold the proofs on it.
--   Ipc          src/ipc/ipc_unified.c. Table has connecting and disconnecting, Messages what is sent and
--                received and the end. The functions of the kinds answer by arguments, and what they are
--                called with is listed. Slots has lemmas on the table, Whole the invariant, Messaging that
--                messages leave the table alone, and Connections and Lifetime the results. Framing is
--                src/ipc/ipc_socket.c, which sends a message in pieces behind its size; Stream and
--                Delivery hold the proofs on it.
--   Program      src/main.c over the module manager; the event loop is a function on the world. Whole
--                follows a run from `main` to the exit.
--   In each part Tests (and Json/ParserTests) has runs of the code and the theorems at concrete inputs.
--
-- The C library is written out where the code calls it (`strcmp`, `fgets`, `strtok`, `atoi`, `%d`).
-- `malloc` and `realloc` are answers that the caller of a model chooses; `strdup` is taken to succeed,
-- also in `create_config_item`, which does not test it.
-- Floats are a type with `atof`, `strtod` and what prints them as parameters. A NULL manager or `self`
-- has no counterpart.
-- Counters of type `int` do not overflow here. Sums and products of `size_t` that a caller's number
-- enters wrap at 2 ^ 64; the capacities of arrays, which double from 16 or less, do not get there, since
-- `realloc` refuses before.
--
-- Fuel: the loop over a free list runs on fuel that is above the number of free blocks, and the
-- loader on the length of the file, since each round reads a byte. The parser of JSON runs on twice
-- the length of its input and one more, for a value and the loop in it read a byte between them. A
-- queue is cleared on as much fuel as it has messages. All are shown to be enough. The loop over the
-- attributes of XML runs on one more than the bytes left, on which it ends if it ends on any fuel.
-- The loop over the children and `parse_element` of XML run on fuel, of which `rounds` is enough for a
-- text that stands for a tree; there are other texts on which the loop never ends. The loops that
-- send and receive on a stream run on the answers of the system, a call each.
--
-- Not modelled: the files of JSON, what only logs or prints, the sockets, timers and signals of
-- libuv, the routes of src/http/http_routes.c, `logger_flush`, the functions of thread communication
-- that store nothing, the writer of XML and the pointers between its nodes, what a cleanup frees, and
-- the rest of src/ipc, whose functions wrap calls of the operating system. The memory pools are used
-- by one thread at a time, a wait on a condition variable is a new attempt, and the memory suffices
-- inside a clone, in the parsers of JSON and XML, in the HTTP server and on streams. What a socket read
-- is a string that ends in a 0 byte. `sscanf` with `%x` is a parameter that reads two digits.
pub mod Prelude
pub mod Modules
pub mod Memory
pub mod Threadpool
pub mod Config
pub mod Json
pub mod ThreadComm
pub mod Http
pub mod Logger
pub mod Database
pub mod Xml
pub mod Network
pub mod Program
pub mod Ipc
