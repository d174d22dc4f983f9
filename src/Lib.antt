-- ===== src/Lib.antt =====
-- A verification library for the programs of the repository that have logic of their own. Each part
-- stands alone: the programs share no state and do not call each other, but for the repo programs,
-- which use the calendars and the dictionary beside them.
--
-- Knapsack models Algorithm/动态规划/min_receipt_plan(01背包).cpp: `dp` is a function from indexes
-- to cells, `init`, `zero_one_pack`, `recursive_print_plan` and `main` keep their names, MAX_V, DEST_V
-- and the receipts are arguments of `main`. An `int` is a ℤ: the totals of the program stay far below
-- its bounds. The walk that prints the plan has `max_v + 1` as its fuel, since each step goes down.
-- Pass is one pass of the table in place, Plan what a filled table stands for, Minimum the result.
--
-- Radix models Algorithm/radix-tree/radix_tree.hpp and radix_tree.cpp. A node is a tree of its
-- refcount, its prefix and its edges; since every node has one parent, a `node` handle is the path to
-- it, and a write through a handle rebuilds the path. A key is the memory from its address on, with
-- its size. Match, Insert, Erase and Visit are `match` and `contains`, `insert`, `erase`, and `apply`;
-- `none` is a failed assertion, a write out of bounds, or a prefix of 2 ^ 32 bytes or more, whose length
-- does not fit. `match` has `size + 2` as its fuel, since a
-- round that goes on matches a byte of the key, but at the root. Count says how often a tree holds a
-- key, Focus and Rebuild what a write through a handle changes, Shape which trees are formed, Short
-- the bound of 2 ^ 32 on the bytes on the way to a node. Scan,
-- Matched, Rounds and Search follow `match`; Contains, Adds, Inserted and Insertion, Removal, Same,
-- Erased and Erasure, and Reported are about the operations. Session has runs of calls, and the
-- multiset that Answers compares them with. The refcount wraps at 2 ^ 32 and the size
-- at 2 ^ 64. Block has the bytes behind a node: the numbers have their low byte first, a pointer has
-- eight bytes, and what `malloc` and `realloc` give is a parameter. Layout and Cells are about its
-- parts, Stored, Parted, Halves, Upper, Merged, Removed and Compact about what `insert` and `erase` do
-- to it, and Refine compares it with the trees. Not modelled: `print`, and the release of memory.
--
-- Exchange models Languages/cpp/19_quantlib_demo: Holidays, WorkingWeekends and Calendar are
-- time/calendars/ex_china.hpp and ex_china.cpp, Sse, Szse and Ib with what they share in Dict are
-- dict_def.hpp, and PledgeRepo and OutrightRepo with what they share in Dates are pledge_repo.hpp and
-- outright_repo.hpp. What they call of QuantLib (the parts and the weekday of a date, `adjust` and
-- `advance`) is a parameter, with QuantLib's documentation of the convention `Following` as the
-- hypothesis `Follows`. Late and Names are about the calendars and the dictionary. Not modelled: the
-- interest, which is floating-point arithmetic, and the samples that print.
--
-- Mail models Languages/cpp/mail_wrapper: Mail itself has `base64_encode` and the loop over the
-- document of send_email.c, Socket `send_socket` and `read_socket`, with what `write` and `read` answer
-- as parameters and the events of the connection as its state, and Session `main`. The loop of `send_socket`
-- has the length of the buffer as its fuel, since each round sends a byte. Wire says what an action
-- puts on the connection, Dialogue and Transcript what the session does. Decode is an independent
-- decoder, Digits the table, Roundtrip, Attachment and Plain the texts. Dots reads a mail as a server
-- does, and Received is about that. Wrapper is mail_wrapper.h, Mailx mail_wrapper.cpp, and Shell reads
-- a command line as a shell does. Not modelled: the output.
--
-- Cluster models Languages/cpp/15_zookeeper_multi_thread_demo: Split is str_utils.h, with the length
-- of the string and one more as its fuel, since every round takes the delimiter away; Manager is
-- cluster_manager.h and cluster_manager.cpp, with ZooKeeper's calls as parameters and its
-- documentation as the hypothesis `Serves`. Watcher has its two events, and Life the watcher and the
-- calls and events of a manager in any order; the mode that
-- another session's event writes meanwhile is an argument. Parts, Creation and Trigger are about them.
-- The loop of `trigger_master_event` runs on fuel, one for each call and one more, and the loop of
-- `reconnect` on one for each round. Not modelled: the mutexes, the waiting and the output.
--
-- SpinLock models Languages/cpp/locks/spin_lock.hpp: an access of the atomic flag is a step, and the
-- threads are interleaved in any order. A thread leaves only where it is inside. Exclusion is about it.
--
-- Zsock models Languages/cpp/0_libuv/uv_zmq/uv_zsock.h and uv_zsock.c. Of a libuv handle it keeps
-- whether it is started and whether its `data` is reset; the events that ZeroMQ reports are arguments.
-- Wakeup is about a turn of the loop, Closing about the four handles. Not modelled: the assertion that
-- ZeroMQ gives a descriptor.
--
-- Epoll models IO/epoll_lt_et.c, with the system calls as parameters. The loop of `epoll_et_loop` has
-- as its fuel one more than bytes are pending, since each round but the last takes one. Edge is
-- about the loop, with the documentation of `recv` as the hypothesis `Serves`, and Accept about the
-- listening socket, with the hypothesis `Listens`. Serve is `main`, with what `epoll_wait` returns as
-- a list. Not modelled: bytes that come in while a socket
-- is read.
--
-- Http models Languages/cpp/0_libuv/learn_uv/uv_http_req: Http itself and Request are request.h, Call
-- is http_request_call.h and http_request_call.cpp. The order in which the map of the headers is
-- listed is an argument. Port and Uri are about the URL, Text and Body about the text of a request.
-- Call takes the callbacks of libuv as steps, each where the call waits for it, and what the parser
-- calls back for a read as an argument; Closing, GivenUp and Response are about it. Not modelled: the
-- resolver, the connection, the parser and the output.
--
-- Curl models Languages/cpp/0_libuv/uv_curl_wrapper/curl_httpclient.hpp. Curl's easy handles are
-- numbers, and the data of a request is found by its handle. History has the events of the requests,
-- and what they let the owner expect; Callbacks compares the client with it. Sockets is about the
-- contexts. Not modelled: curl and libuv themselves, which call back what is given as an argument.
--
-- Keywords models Algorithm/ac_automation.cpp. A node is the path to it, and a pointer to a node is
-- that path; `none` is a null pointer. The queue's loop runs on fuel, one for each node, since every
-- node but the root is put in it once, by its parent; the loop of `do_find_fail_ptr` has one more than
-- the length of the node, since every pointer leads to a shorter path. Insert is about the words, Fail
-- about one failure pointer, on the suffixes of Suffix, Child about the children of a node, Levels
-- about the nodes of a tree, Build about the whole of it, Grow about the tree of some words, and
-- Misses about the search. Not modelled:
-- `show`, and the allocation of the nodes.
--
-- Descriptors models `close_all_fd` of IO/tcp_reuse_port_test.c; Pass and Closed are about it. What a pass over
-- the directory lists is a parameter, with the documentation of the directory as the hypothesis
-- `Lists`. The passes have one more as their fuel than descriptors can be open, since each pass but
-- the last closes one. Not modelled: `create_socket_and_bind` and `main`.
--
-- Base has the numbers, lists, texts and tests that the parts share, and Tests the runs and the
-- examples.
--
-- The other programs of the repository are not modelled: most are copies of other projects' libraries
-- and samples of system calls.
pub mod Base
pub mod Knapsack
pub mod Radix
pub mod Exchange
pub mod Mail
pub mod Cluster
pub mod SpinLock
pub mod Zsock
pub mod Epoll
pub mod Http
pub mod Curl
pub mod Keywords
pub mod Descriptors
pub mod Tests
