-- ===== src/Lib.antt =====
-- Verification of the socket programs of this repository: exercises with TCP and UDP sockets, of
-- which the vote service of Sockets_in_C/ch05 is the largest.
--
-- The vote service: a client (Sockets_in_C/ch05/VoteClient) encodes a request as text, frames it
-- by a newline and sends it; the server (Sockets_in_C/ch05/VoteServer) reads lines, decodes
-- them, counts votes, and sends a response that is encoded and framed in the same way.
--
-- Prelude and its children: the shared names, tests on numbers, lists, `int` conversions, bytes.
-- Exits: Exit.c. A run of a program returns, exits with a text on stderr, or is undefined; or
--   the fuel of its model does not suffice, which the theorems rule out.
-- CLib and its children: streams of stdio.h, `strtok`, decimal numbers, `snprintf`, by their
--   documented behaviour. A stream has the bytes still to be read, those written, and how many
--   more the device takes; buffering is not modelled.
-- Vote.Protocol: VoteProtocol.h. `count` is a number below 2^64, `candidate` an int.
-- Vote.DelimFramer: DelimFramer.c; `get_next_msg` is GetNextMsg and `put_msg` is PutMsg. A
--   buffer is a list of bytes, and a store outside it is undefined. Reading describes what a
--   stream holds, Writing what is sent, Ending that the loops end.
-- Vote.Encoding, Vote.Decoding: VoteEncodingText.c; `encode` is Encode and `decode` is Decode.
--   `decode` works on the buffer, with a pointer into it as the bytes before it and from it on.
--   Requests, Responses and Stale are about what is read back; Safety, Typed and Ended about
--   the buffer and the values that are stored; Bounds about the size of what is written.
-- Vote.LengthFramer, Vote.Encoding2, Vote.Decoding2: LengthFramer.c and VoteEncodingText2.c of
--   ch05/VoteClient, which can stand in the place of the two above.
-- Vote.DelimFramer2: GetNextMsg of DelimFramer2.c, which Agreement compares with the first one.
-- Vote.Server: main.c of the server. `session` is one connection, on fuel: a round reads a byte
--   at least, so one more than the bytes sent is enough, which is what `serve` gives. `serve` is
--   the accepting loop over the connections that arrive. The buffers hold any bytes at first.
--   Tally and Counting compare the counters with the output, Rounds is the rule for all rounds.
--   Bounded is about the arrays, Answered about one request, Words about the numbers. Requests is
--   about the requests of one connection, and Election about those of all, as a box that forgets
--   their order (Ballots). Main has main from its start on and the function `response`.
-- Vote.Client: main.c of the client. What the server sends is a function of what it was sent, so
--   that a connection of the server can be put at the other end: Delivered does, Unanswered is
--   about a server that closes.
--
-- The poll servers of Beej/ch07 serve many connections in one process, by an array of
-- descriptors.
-- Poll.Table: add_to_pfds and del_from_pfds of poll_server2.c. The array is a list with its
--   room, an access outside it is undefined. Laws describes the operations on the entries in use
--   and the spare ones.
-- Poll.Server2: the rest of poll_server2.c: `visit` is the body of main's loop over the entries,
--   `scan` that loop, `serve` main's outer loop over the results of `poll`, `run_server` main
--   behind get_listener_socket. What accept, recv and realloc bring is a parameter, a function
--   of the number of calls made before. `scan` runs on fuel: a pass accepts once at most, so two
--   more than the entries is enough. Ledger is about one visit, Passes about a pass, Serving
--   about all, Stale about `revents`.
--
-- Poll.Main: main of both poll servers, with the listening socket in front of their loops.
--
-- Net.Lookup: GetAddrList. What getaddrinfo brings is a parameter.
-- Net.Address: PrintSocketAddress and the functions in its place. `inet_ntop` is a parameter, and
--   the machine is a little-endian one. Ports is about `ntohs`.
-- Net.Setup: the loops over the addresses that getaddrinfo found, SetupServer and SetupClient of
--   Sockets_in_C/ch05/VoteServer/src/Utils.c (ch06/Utils.c and ch05/VoteClient have copies),
--   what ch03 has in their place, and get_listener_socket of the second poll server. The results
--   of the system calls are a record of functions; a log has the calls that changed a
--   descriptor. Servers and Clients say which sockets are left open; Named has getaddrinfo in
--   front of the loops.
-- Net.Echo: HandleClient of ch06/Utils.c, echo of ch02/IPv4_TCP and handle_client of ch03/3-2. A
--   connection is the list of what `recv` brings, and what `send` returns. Faithful compares the
--   loops; Servers has the mains of ch02/IPv4_TCP/server, ch03/3-2/server and ch03/3-2-2/server,
--   Select that of ch06/TCPEchoServer-Select.c, both over the list of what the blocking calls
--   bring. Select.Ports has the sockets of the ports in front of the loop.
-- Net.Client: main of ch02/IPv4_TCP/client, and the receiving loop of ch02/IPv6_TCP_V2/client,
--   on fuel: it need not end, which Endless shows.
-- Net.Tcp: ch02/TCP_Echo_Server and ch02/TCP_Echo_Client, whose exits Status and ClientStatus
--   compare with those of the other echo programs.
-- Net.Sigio: ch06/UDPEchoServer-SIGIO.c. `sigio_handler` is the handler on what waits, on fuel:
--   a round takes a datagram, so one round more than datagrams is enough. `Step` is one arrival,
--   one delivery of the signal or one round of the handler, in any order.
-- Calls: what `recv` brings.
--
-- Poll.Server1: poll_server.c, with the array, the loop and the books of the second server.
--   Sender is about whom it sends to.
-- Net.Echo.Variants and Net.Client.Variants: the mains of ch02/IPv6_TCP, ch02/IPv6_TCP_V2,
--   ch02-2 and, of the clients, ch03/3-2. The results of their calls before the loops are
--   records.
--
-- Modules named Examples hold runs at concrete inputs. Paths that begin with ch are below
-- Sockets_in_C.
--
-- Not modelled: getaddrinfo and inet_ntop, whose results are parameters, setsockopt, what the
-- servers print around an address, poll1.c, and the exercises of ch02/exercise and ch03/Exercises,
-- which print what inet_pton and getaddrinfo bring.
pub mod CLib
pub mod Calls
pub mod Exits
pub mod Net
pub mod Poll
pub mod Prelude
pub mod Vote
