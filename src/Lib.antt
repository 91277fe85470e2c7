-- ===== src/Lib.antt =====
-- evnet is a C library of non-blocking network services. This development models the parts that move
-- bytes and messages, each from its source, and states what they do.
--
-- The parts and how they interact:
--   - dataqueue.c keeps the bytes that a channel has received or has still to send. It is used by
--     channel.c, msgpraser.c, httpc.c and httpd.c.
--   - msg_frame.h, msg_pack.c and msgpraser.c are the packet protocol: make_msg_packet builds a packet
--     in a static buffer, and msgparser_parser cuts packets out of an input queue and hands each to a
--     handler. msgd.c and msgc.c are the server and the client that use them.
--   - event.c, adapted from Redis, watches descriptors by epoll and calls a procedure for each that is ready.
--     channel.c, acceptor.c and libnet.c register with it, and libnet.c runs it.
--   - channel.c keeps the connections in a ring and moves bytes between their queues and the system.
--     acceptor.c makes a channel of each connection that comes in, libnet.c is the front of all this, and aesocket.c
--     and evpipe.c wrap the system's calls.
--   - msgd.c is a server for packets on top of channels, with one user in memory for each connection, and msgc.c
--     is its client.
--   - harbor.c posts messages to a server one at a time by the HTTP client of httpc.c.
--   - evactor.c runs handlers on worker threads and tells them on the main thread that they are done, for which
--     evnet_async of libnet.c wakes the event loop.
--
-- Files:
--   - Base: names, Boolean tests, lists and words over the native numbers that all parts share.
--     Base/Block: memory from malloc, as lists of bytes with checked access.
--   - DataQueue: dataqueue.c and dataqueue.h. remove_data, insert_data, distill_data and next_data are the
--     four functions dataqueue_*; place, grow, move_parts and append are the pieces of
--     dataqueue_insert_data in order. Shape: the invariant and the bytes that a queue stands for.
--     Grow, Insert, Read, Wedge: the theorems on growth, insertion, reading, and on the state in which
--     an insertion loses the order.
--   - Msg: Frame is msg_frame.h, Pack is msg_pack.c (Pack/Bytes: the bytes it makes), Parser is msgpraser.c
--     and msgparser.h: command_head and command_body are the two branches of _command. Parser/Fill
--     is its copying loop, Parser/Command and Parser/Body one call of _command, Parser/Refine one round of
--     msgparser_parser, Parser/Loop the whole of it. Stream is an independent decoder of plain streams,
--     with no queue, buffer or position, against which the parser is compared; Stream/Wire is what that
--     decoder makes of packets, Stream/Chunks what it makes of a stream in pieces. Exchange joins both ends.
--   - Event: event.c and event.h. create_event_loop, create_file_event, delete_file_event and process_events are
--     the functions aeCreateEventLoop, aeCreateFileEvent, aeDeleteFileEvent and aeProcessEvents; api_add_event,
--     api_del_event and api_poll are the epoll variants of aeApiAddEvent, aeApiDelEvent and aeApiPoll.
--     Event/Table: the array and its highest watched entry. Event/Watch and Event/Unwatch: the invariant of
--     the loop, which ties the array, maxfd and the kernel's interest list, under creation and deletion of
--     file events. Event/Process and Event/Fired: the processing of events.
--   - Harbor: harbor.c and harbor.h. told and settle are harobr_httpHandler up to its call of harbor_continue, post
--     is the body of harbor_continue. Harbor/Order: what becomes of the messages.
--   - Actor: the list of finished actors in evactor.c, with actor_run and evactor_loop, and evnet_async of
--     libnet.c. Actor/Batch: one call of evactor_loop. Actor/Turns: the two actions of a
--     worker and the parts of evactor_loop in any order, with the theorems in Actor/Turns/Woken.
--   - Channel: channel.c and channel.h. The state Net is g_libnet with the heap of channels; unlink and release are
--     the two halves of channel_close around its message, receive is _read_callback and flush, wrote and
--     sent_out are _write_callback behind the handshake, check_from is the loop of _check_timeouts.
--     Channel/Ring, Relink, Links: doubly linked rings, first over two functions, then in the heap.
--     Create and Unlink: the ring under channel_create and channel_close. Valid: the valid state of all channels,
--     with the event loop; Fresh: that state under channel_create. Touch, Enable, Detach: operations on one channel, and a channel out of the ring.
--     Close, Quiet, Send, Flush, Write, Receive, Bind, Sweep, Crond: the theorems on each function;
--     Ended: which channels the sweep closes, and what is told of them.
--   - Acceptor: acceptor.c and acceptor.h.
--   - Msgd: msgd.c and msgd.h. usr_data and usr_closed are the branches of _channel_callback, accepted is
--     _acceptor_callback. Msgd/Served: the count of connections; Msgd/Accept and Msgd/Closed: how it changes;
--     Msgd/Arrive: the acceptor, the channel and the server together.
--   - Msgc: msgc.c and msgc.h, in the same way. Msgc/Closed: the client once its connection has ended.
--   - Libnet: libnet.c and libnet.h. begun is evnet_init behind aeCreateEventLoop. Libnet/Start: what evnet_init
--     leaves.
--   - Socket: aesocket.c, aesocket.h and evpipe.c for systems other than Windows. Socket/Descriptors: what
--     stays open; Socket/Transfer: what aesocwrite, aesocread and ev_pipe return.
--
-- How the C code is modelled: a pointer is none or a block of bytes, and every access that leaves its
-- block gives none, so a result `some` says also that memory is used as it should be. The unsigned int
-- counters wrap at 2 ^ 32 and unsigned short sizes at 2 ^ 16, as written in the definitions; the theorems
-- on insertion ask for a block that stays below 2 ^ 32 bytes. A head is laid out as on a little-endian
-- machine. malloc is taken to succeed where the source does not test it.
--
-- Fuel: the copying loop of _command has one unit more than the bytes it copies up to, and the loop of
-- msgparser_parser two for each waiting byte and two more, since a round takes a byte or reads a head. A run
-- without fuel would give none. harbor_continue has one more than the messages that wait,
-- for its recursion through the handler. The loop of _check_timeouts has as much as there are channels.
--
-- Parameters: the handler of msgparser_parser, a function on a state of its user. It does not touch the
-- queue that is being read. For the event loop, epoll_ctl and epoll_wait are functions on a state of the
-- kernel, of which EpollLaws and WaitLaws ask what their manuals promise, and a procedure is a function on the
-- loop and a state of the user, which changes the loop by calls of its interface. For channels, the
-- handlers are one function on the whole state; what is asked of them differs: SparesClosed lets them do
-- anything but free or change the channel that is being closed, AreQuiet lets them change only the users' state,
-- by a function `tell`.
-- For sockets, the system's calls are a record of functions, Os, of which OsLaws and TransferLaws ask what the
-- manuals promise. For the message server and the client, the application's two
-- functions. For the main loop, epoll_wait and the registered procedures. For the harbor, httpc_load,
-- httpc_clear and the callback; the callback does not call harbor_send. For
-- the actors, the handlers, as functions on a state of their user.
--
-- Not modelled: httparser.c and muparser.c, which are copies of other projects; the code under SSL_SUPPORT and
-- for Windows; the example programs in win32; log output; the select variant of event.c; the HTTP and upload
-- parts, and the thread pool.
pub mod Base
pub mod DataQueue
pub mod Msg
pub mod Event
pub mod Harbor
pub mod Actor
pub mod Channel
pub mod Acceptor
pub mod Msgd
pub mod Msgc
pub mod Libnet
pub mod Socket
