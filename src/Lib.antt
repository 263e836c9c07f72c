-- ===== src/Lib.antt =====
-- The core of libzmq: messages and their contents, their framing, the handshake of a connection,
-- the options of a socket, the pipes between sockets and sessions, the ways in which a socket
-- uses its pipes, the tree of subscriptions, and timers.
--
-- A socket keeps its settings in `options_t` (src/options.cpp: Options). Its threads hand
-- messages to each other through `ypipe_t` (src/ypipe.hpp: Ypipe), a queue without locks on top
-- of `yqueue_t` (src/yqueue.hpp: Yqueue). Two of them with an object at either end, `pipe_t`,
-- make a pipe between two sockets or sessions (src/pipe.cpp: Pipe); the objects send each other
-- commands. A socket that has several pipes keeps them in an `array_t` (src/array.hpp: Array) of
-- which the first are active (Ring), and sends to them in turn (src/lb.cpp: Lb) or reads them in
-- turn (src/fq.cpp: Fq), or gives each message to all that match (src/dist.cpp: Dist). On a
-- connection the engine turns messages into bytes and back with an encoder and a decoder
-- (src/encoder.hpp, src/decoder.hpp: Codec.Encoder, Codec.Decoder) of one of two protocols
-- (src/v1_encoder.cpp, src/v1_decoder.cpp: Codec.V1; src/v2_encoder.cpp, src/v2_decoder.cpp:
-- Codec.V2), which use src/wire.hpp (Wire). A socket that filters messages by their beginning
-- keeps its subscriptions in `trie_t` (src/trie.cpp: Trie). Before messages go over a connection,
-- the two sides make a handshake: src/mechanism.cpp (Mechanism) has what the mechanisms share,
-- src/plain_client.cpp and src/plain_server.cpp (Mechanism.PlainClient, Mechanism.PlainServer)
-- the commands of PLAIN, of which the server asks a ZAP handler (Mechanism.Zap). The session of a
-- REQ socket lets only well-formed replies through (src/req.cpp: ReqSession). The keys of a
-- connection are written in Z85 (src/zmq_utils.cpp: Z85). An application has its own timers in
-- `timers_t` (src/timers.cpp: Timers). What these use of `msg_t` is in Msg; how messages share
-- their contents (src/msg.cpp) is in MsgStore. Prelude holds lists, tests and byte arithmetic
-- over the native numbers.
--
-- Correspondence. Each method is a function on a record of the object's fields, of the same name
-- where antt allows it; `none` is a failed assertion in Trie, Pipe, Lb and Fq, EINVAL in Options,
-- and in Z85 EINVAL, a failed assertion or a loop that does not end. An address in a `yqueue_t`
-- is the number of its chunk times the size of a chunk plus the position. In Ypipe.Steps the
-- writer's and the reader's methods are steps of one relation, divided at the atomic accesses of
-- `c`. Lb, Fq and Dist get a store of the ends of their pipes, and call the methods of Pipe on
-- them. In MsgStore a message is a variable of a store and a content an address in it, and `none`
-- is the use of a content that was freed or of the NULL that ENOMEM leaves. In Pipe.Pair the
-- calls and the commands of two ends are steps of one relation, as are the calls on messages and
-- timers. Trie.add and Trie.rm follow the loops over `next.table`, of which a table of one
-- pointer is the case `next.node`. A decoder's block is copied byte by byte, which gives the same
-- actions at the same bytes.
--
-- Bounds. Counters of a trie wrap at 2^32, a character is a byte, sizes have 64 bits. The
-- counters of Z85 and the ids of timers have 32 bits, the time that `timeout` returns is a `long`
-- of 64, and the sum in `compute_lwm` wraps as an `int`. Numbers in the memory of an option are
-- little-endian, `int` has 32 bits. The loop of `execute` over the timers has a round for each
-- timer and one more. The loop over metadata has as fuel the number of its bytes, of which a
-- property takes one at least. The decoder's loop round the actions has fuel 2: an action that
-- wants no bytes is followed by one that ends the message. The encoder's loop has fuel 4: a
-- header, a body, the end of the message, and the test of the loop. The fuel of the loop round
-- the digits of Z85 is one more than there are digits. The loops of Lb and Fq recur on `active`,
-- those of Dist on the pipes that are left.
--
-- Parameters. `alloc` of MsgStore says whether there is memory; `now` of Timers is the clock.
-- `maxmsgsize` is a setting, and none where it is negative; `alloc` says for which sizes memory
-- can be allocated. `n` is the size of a chunk. Whether there is a ZAP handler, and what it
-- answers, is the field `zap` of a PlainServer.
--
-- Not modelled here: other parts of the library, among them src/mtrie.cpp, the socket types,
-- sessions and engines, and the mechanisms NULL and CURVE; all input and output; the filters of
-- addresses and peer credentials and the CURVE, GSSAPI and VMCI options; the metadata of
-- messages, `add_refs` and `rm_refs`; handlers of timers that call the methods of the timers that
-- run them; pipes that conflate, and hiccups in a pair of pipes.
pub mod Array
pub mod Codec
pub mod Dist
pub mod Fq
pub mod Lb
pub mod Mechanism
pub mod Msg
pub mod MsgStore
pub mod Options
pub mod Pipe
pub mod Prelude
pub mod ReqSession
pub mod Ring
pub mod Timers
pub mod Trie
pub mod Wire
pub mod Ypipe
pub mod Yqueue
pub mod Z85
