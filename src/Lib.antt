-- ===== src/Lib.antt =====
-- Verification of programs of the CS 360 repository: a cache simulator and a matrix transpose
-- (labs/cachelab), a DNS server (labs/dnsserverlab-handout), a DNS resolver
-- (labs/dnsresolverlab-handout), the controller of a reader program (hw/hw6), an event-driven
-- web server (labs/event-webserver), and a web server with a pool of threads
-- (labs/threaded-webserver).
--
-- The parts are separate programs. The cache simulator reads a trace of memory accesses and counts
-- hits, misses and evictions of a set-associative cache. The transpose is judged by the misses that
-- such a cache has on it. The DNS server reads a database once and then answers datagrams one by
-- one; it reads and writes messages with the functions of dns.c. The resolver has copies of these
-- functions, and sends its query to such a server. The web server waits for events with epoll, and
-- keeps a client in a struct: its requests are received and parsed, and their responses are sent one
-- by one, each in as many pieces as the socket takes. In the threaded web server the main thread puts
-- clients into a queue, from which workers take them; a worker serves one client until it leaves.
--
-- Which file models what:
-- - Base: shared helpers. Base/Tests has Boolean tests on numbers, Base/Lists lists as arrays,
--   Base/Words 32-bit words with their wrap-around, Base/Pow powers of two, Base/Loops the `for`
--   loop of C, Base/Run outcomes (`ok`, `fault` for an access outside an array, `out_of_fuel`),
--   Base/Bytes memcpy and fields in network order, Base/Text the functions on
--   strings of the C library that the sources call (strstr, strtok, sscanf, sprintf),
--   Base/Families families of threads and sums over them.
-- - CacheSim: labs/cachelab/csim.c. The globals are the record Simulator; initializeCache is
--   initialize_cache, findEmptyLine find_empty_line, findLRU find_lru, cacheSimulate cache_simulate
--   (its loop is scan_lines, the part behind a miss replace_line), the loop of main run_trace.
--   CacheSim/Args models initializeArgs. CacheSim/Sets is about one set, CacheSim/Address about
--   set index and tag, CacheSim/Runs about accesses and traces, CacheSim/Policy about what is
--   evicted, CacheSim/Counts about the size of the counts.
-- - Transpose: labs/cachelab/trans.c, with transpose_submit, trans and is_transpose. The three
--   copies of the four loops are one function, blocks, with their constants as arguments.
--   Transpose/Blocks and Transpose/Inside are about these loops, Transpose/Correct about the functions.
-- - Dns/Name and Dns/Record: labs/dnsserverlab-handout/dns.c and dns.h, a function for each
--   function. An array is a list of bytes, a pointer into it an index, a string the list of its
--   bytes before the zero.
-- - Dns/Server: labs/dnsserverlab-handout/server.c. init_db, is_valid_request, get_question and
--   get_response are functions of these names, serve_request is a round of the loop of serve_udp.
--   Dns/Server/Lookup is about the search through the database, Dns/Server/Answer about the bytes
--   of the answers, Dns/Server/Database about loading the database.
-- - Dns/Resolver: labs/dnsresolverlab-handout/resolver.c, create_dns_query and the first half of
--   resolve. query_name_to_wire is its name_ascii_to_wire, which returns another length than the one
--   of dns.c. Dns/Resolver/Response is get_answer_address (answer_loop is its loop), with the
--   resolver's name_ascii_from_wire (response_name) and rr_from_wire (response_rr), and resolve.
--   Dns/Resolver/Query is about the bytes of a query, Dns/Resolver/Answered about the query of the
--   resolver and the answer of the server, Response/Names, Response/Found and Response/Resolved about
--   reading a response.
-- - EventServer: labs/event-webserver/http_server.c and http_server.h. The file itself has constants
--   and structs. EventServer/Requests is request_to_struct, cut into its loops (parse_requests over
--   requests, header_lines over lines, request_line and header_line for a line), str_replace and
--   get_filename_ext. EventServer/Transfer is recv_data and send_data, EventServer/Responses the
--   functions build_ok_header, build_ok_body, build_error_header, build_error_body and set_header,
--   EventServer/Connection is receive_requests and send_responses, EventServer/Table the loop of
--   http_server_run with get_new_client and free_client. What a system call returns is given, one
--   answer for a call. EventServer/Messages is an independent view of requests and their text,
--   Lines, Fields and RoundTrip are about parsing it, Transfer/Delivery and Transfer/Overflow about
--   what is sent and received, Bodies about what is put in the send buffer, Connection/Rounds (with
--   Promise, Following and Pipeline) about sending responses to pipelined requests, Connection/Exchange about
--   receiving requests, Table/Safe (with States, Moves, Handled,
--   Slots, Swept and Valid) about the states of the event loop, Table/Idle about idle clients.
-- - ThreadedServer: labs/threaded-webserver/http_server.c and http_server.h. ThreadedServer/Queue is
--   push and pop. ThreadedServer/Threads is main, http_server_run and worker: a thread stands before a
--   call (MainPc, WorkerPc), and a step is one call of one thread, in any order, or SIGINT.
--   ThreadedServer/Client is handle_client with send_response and send_error_response; the functions on
--   lines and headers are the text of the event web server's, and so are their models.
--   Threads/Counts is about the semaphores and the mutex, Threads/Order about the clients in the
--   queue, Threads/Safe about the calls of push and pop, Threads/Progress about waiting,
--   Threads/Stuck about failing calls of accept, Client/Pieces about the array that requests are
--   received in, Client/Served about serving requests.
-- - EasyRead: hw/hw6/easy-read-handout/easyread.c, the loops of main as steps between its calls of
--   fork and kill. EasyRead/Readers is about the child processes.
--
-- Bounds and fuel. A loop over a list is recursion on it. A `for` loop of C runs on as much fuel as
-- its bound, which is enough since its step is positive (for_loop_inv in Base/Loops). The reader of
-- names and the search through the database run on fuel that is given to them, since neither need
-- end: one round more than a name has labels, and one more than the database has entries, is enough
-- where there are no pointers and no aliases, and theorems about results ask for no more.
-- The parser of the web server runs on more fuel than its text has bytes, and its reader of files on
-- more than the file has; its transfers run on the answers of the system calls.
-- Numbers of type int that only count are unbounded; CacheSim/Counts is about how far they get.
-- Shift counts are taken modulo 32, as the x86 instructions do where C leaves them undefined. The
-- host is little-endian. The clock is read once for a request
-- of the DNS server, and once for an event or a sweep of the web server, whose calls of epoll_ctl
-- succeed.
--
-- Not modelled: what is printed, sockets, the release of memory
-- (but for the clients of the web server), the graders of the labs, and the programs of the repository that are named in no part above.
-- inet_pton and atoi of the C library, what rand returns, what malloc leaves in an array
-- and what the memory holds behind one, the server that the resolver asks, and, for the web servers,
-- what open gives for a path and the text of a date, are parameters.
pub mod Base
pub mod CacheSim
pub mod Transpose
pub mod Dns
pub mod EasyRead
pub mod EventServer
pub mod ThreadedServer
