-- ===== src/Lib.antt =====
-- A model of the core of ZeroMQ 4.3.1 (libzmq): the queues between threads, the pipes between
-- sockets, the way messages are spread over pipes and gathered from them, and the encodings of the
-- wire protocol. Paths are given from the repository's root.
--
-- How the parts interact. A socket and its peer (another socket, or the session of a connection)
-- each hold one end of a pipe pair (pipe.cpp). An end writes messages to one ypipe (ypipe.hpp) and
-- reads from another, and sends commands to the other end. Sockets with several pipes spread their
-- messages by a load balancer (lb.cpp), send them to all by a distributor (dist.cpp), or gather
-- them by a fair queue (fq.cpp); all three keep their pipes in an array whose items know their own
-- index (array.hpp). On a connection the messages of a pipe are encoded to bytes (encoder.hpp and a
-- protocol on top of it), which reach the decoder of the peer in pieces of any size (decoder.hpp,
-- driven by stream_engine.cpp).
--
-- Files, each with the source of zeromq-4.3.1/src that it models:
--   Base: shared names, tests on numbers, lists, bit operations, `int`; it models no code.
--   Msg: msg.hpp, msg.cpp. A message's type, flags and content.
--   Wire: wire.hpp. Integers in network byte order, as lists of bytes.
--   Ypipe: ypipe.hpp. Spec is the queue that it stands for, Laws its invariant, Refine and Run the
--     refinement.
--   Yqueue: yqueue.hpp, the queue in chunks under a ypipe. Linked has the chunks, Window the positions in
--     them, Ops, Take and Unpush the operations, Run the calls that a ypipe makes, and Bounds the positions.
--   Pipe: pipe.hpp, pipe.cpp, command.hpp. Control has the handlers of flow control, Term those of
--     the closing handshake; Read, Write, Rollback and Water are about single ends, and Handshake joins the two
--     ends to a system of calls and deliveries.
--   Array: array.hpp.
--   Lb: lb.hpp, lb.cpp.
--   Fq: fq.hpp, fq.cpp.
--   Dist: dist.hpp, dist.cpp. Inv has the order of its pipes, Places and GiveUp where swaps leave them,
--     Round and Send which of them get a message, and Parts and Leave a pipe that terminates.
--   Decoder: decoder.hpp and the loop of in_event in stream_engine.cpp. Split cuts its input in two,
--     Stream hands it byte after byte, Pieces is about the pieces in which bytes arrive, and InPlace
--     about data that need no copy.
--   Encoder: encoder.hpp. Laws is about any protocol whose steps end in the first one.
--   V2: v2_protocol.hpp, v2_encoder.cpp, v2_decoder.cpp. Frame has the bytes of a message, RoundTrip
--     what the decoder makes of them, Wire what goes over a connection, and Rounds the fuel.
--   V1: v1_encoder.cpp, v1_decoder.cpp, in the same parts.
--   Z85: zmq_utils.cpp, the Z85 codec, in which keys are written as text. Chars has one round of the
--     loops, RoundTrip one direction, Accepted and Canonical the other one, and Strings the strings that
--     are written.
--   Trie: trie.hpp, trie.cpp, the trie of the subscriptions. Tables has the tables of pointers, Valid the
--     shape of a trie, Extend and Add its growth, Prune and Rm how it shrinks, Check, Apply and Run the rest.
--   Timers: timers.hpp, timers.cpp. Order and Due are about the map of the timers, Execute, Forever and
--     Timeout about the loops.
--   Conflate: dbuffer.hpp, ypipe_conflate.hpp, the pipe that keeps one message.
--   ReqSession: req.cpp, the session of a connection of a REQ socket. Replies has the messages that it accepts,
--     and Retry one for which there is no room at first.
--
-- Representation. `uint64_t` counters wrap at 2 ^ 64 where they are compared. A pointer into a queue
-- is a position. Commands to a peer and events for a sink are logs, oldest first. A failed
-- `zmq_assert` or an access out of range is the result `none` of an operation; an access out of range in an
-- array sets its flag `failed`, which no operation resets and which is false in every valid array. `int` sums
-- that may overflow wrap around in two's complement (Base/Int), and the ids of timers end where `int` does. The
-- counters of the Z85 codec do not wrap, and its theorems assume fewer than 2 ^ 32 characters.
--
-- Bounds and fuel. `read_payload` and `unwrite_all` have one more round than there are items in the
-- queue, and each round takes one out. `send_loop`, `has_out_loop`, `recv_loop` and `has_in_loop`
-- have as many rounds as there are active pipes, and each round but the last takes one out.
-- `distribute_loop` has as many as there are matching pipes. `decode_loop` and `receive` have as
-- many rounds as bytes, `encode_loop` two more than its buffer has bytes, and the steps of a
-- decoder three, since at most two follow one another without a byte between them. `execute_rounds` has one round
-- more than there are timers: a round takes an entry away, and a timer that is put back is not due again
-- unless its interval is 0, for which the fuel runs out as the loop of the source does not end. A block of the
-- Z85 codec has six rounds for its divisor, which becomes 0 after five divisions by 85 or four by
-- 256.
--
-- Not modelled: operating system sockets, pollers and threads, cryptography, the C interface and its
-- option tables. Memory is taken never to run out, save for the content of a message that is decoded: there the
-- parameter `alloc` says whether memory suffices. Where a decoder stores that content (zero copy) is
-- not distinguished.
pub mod Base
pub mod Msg
pub mod Wire
pub mod Ypipe
pub mod Pipe
pub mod Array
pub mod Lb
pub mod Fq
pub mod Conflate
pub mod Decoder
pub mod Dist
pub mod Encoder
pub mod ReqSession
pub mod Timers
pub mod Trie
pub mod V1
pub mod V2
pub mod Yqueue
pub mod Z85
