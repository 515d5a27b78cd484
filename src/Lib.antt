-- ===== src/Lib.antt =====
-- spadia: the wire formats and the session logic of a WebRTC server in C++.
--
-- A server takes UDP datagrams from browsers, tells STUN, RTCP and RTP apart by their first bytes,
-- answers STUN Binding requests, parses RTCP, and hands RTP packets to a session that watches
-- sequence numbers. The parts and the files that model them:
--
--   Rtp       rtp_packet.h, rtp_packet.cpp. `RTPPacket::Parse` is Rtp.Parse.parse, and the functions
--             in front of it are its stretches in order; Rtp.Packet holds the members and the inline
--             functions, Rtp.Serialize the writer.
--   Session   rtp_session_manager.h, rtp_session_manager.cpp. Session.Lost is `RTPLostSession`, the
--             table of the last 256 sequence numbers: `AddPacket` is add_packet, its branches are the
--             functions before. Session.Manager holds the extensions agreed on and what
--             `RTPIncomingSession::AddPacket` sends for a packet.
--   Rtcp      rtcp_packet.h, rtcp_packet.cpp: the common header, report blocks, sender and receiver
--             reports, `RTCPPacket::Parse` over a compound datagram, the transport feedback
--             (Rtcp.TransportCc with its parser in Rtcp.TransportCc.Parse, NACK and the packet around
--             both in Rtcp.Feedback; Rtcp.TransportCc.Parse.Field and Serialized put writer and parser
--             together).
--   Stun      stun_packet.h, stun_packet.cpp: `Parse`, `IsStun`, `Serialize` and `MakeResponse`.
--   Connection  peerconnection.h, peerconnection.cpp: `OnSocketData`, which tells the three kinds of
--             datagram apart and hands each on; Connection.Lifecycle has the constructor, `Start`, the
--             timer and the destructor.
--   Sdp       peerconnection.cpp: Sdp has what `CreateAnswer` reads and builds, Sdp.Answer the function,
--             which sets up the session that Connection uses and adds the connection to the server;
--             Sdp.Offer has `CreateOffer` and `SetRemoteSdp`.
--   Server    server.h, server.cpp: the table of connections under their users' names, `OnData` and
--             `GetPort`. Server.Table compares the table with an abstract registry; Server.Connections
--             is the constructor of `PeerConnection`, which takes a port and a loop.
--   Pool, Stream  pool.h, media_stream.h: the round robin over the loops (with several threads in
--             Pool.Threads), and the sinks of a stream.
--   Relay     peerconnection.cpp, pool.cpp: who owns which block between `read_u`, `OnMediaData`,
--             `Pool::Async` with its callback, `sendData` and `send_u`. Relay.Sound and Relay.Watched
--             follow the blocks through the operations, for runs without and with a packet that goes to
--             two sinks. Relay.Socket is the same for the socket of the server: `buf_alloc_s`, `read_s`,
--             what `OnData` does with its blocks, and its `send_u`.
--   Forward   peerconnection.cpp: all connections of a process with the address of the last datagram of
--             each: `OnSocketData` around Connection, `OnMediaData` of the sinks, `sendData`, and the data of a
--             packet, which `send_u` frees.
--   Crc32     crc32.h. Tools: the pure helpers of tools.h and tools.cpp.
--   Memory    pointers: a block of bytes with its size, where every access outside is a fault, and
--             the calls of byte_io.h. Common: shared helpers. Tests: runs at concrete inputs.
--
-- A pointer into a block is an offset. A function that C++ lets fault yields `Run`: a value, a
-- fault (out of bounds or in freed memory, null pointer, signed overflow, assertion, exception, a free of what is not
-- allocated), or `stuck` where a loop has used up its fuel. What `malloc` and a constructor leave
-- unset is an argument, often called `junk`. Clocks are arguments. Unsigned integers are numbers
-- with the wrap-around written out where it can happen.
--
-- Fuel: the loop over RTP extensions has the capacity plus one (each round takes a byte), the loop
-- over STUN attributes the message's size plus one and the loop over RTCP packets the datagram's
-- length plus one (each round takes 4 bytes); the loop over skipped sequence numbers has their
-- number, the loop over status chunks the number of statuses (each round takes one), the padding
-- loop 3 rounds, and the parser's loop over status chunks the size of the field (each round takes 2
-- bytes).
--
-- Parameters: byte_io.h is WebRTC's, so its readers and writers are the record Memory.ByteIo and
-- what its header documents, big endian order, is the hypothesis IsBigEndian; `HMAC` of OpenSSL is
-- a function of which a digest of 20 bytes is asked; the arithmetic in `double` is a record of
-- functions with the errors of IEEE arithmetic at these sizes; a hash table is gone through in any
-- order; whether libuv accepts a send is an argument; the JSON of offers and answers is read and
-- written by libraries, so `CreateAnswer` is given what it reads and gives what it builds; names
-- made by `uuid()` differ, those made by `randomID()` are letters and digits. A connection is a
-- number in a store, and its user names stay as they are while it is in the server's table.
--
-- Not modelled: libuv, but for what its handles and requests hold allocated, the order in which it
-- may call back, and what it may do with a response of the server (refuse it, send it or keep it);
-- `PeerConnection::Active`, which returns at once; the timer of a session, which is never started;
-- the members of an answer that are constants; `uuid()` and the clocks, logging, example/main.cpp,
-- which calls what is modelled from two HTTP handlers, and client.cpp, which is commented out. `OnRecvRTP` and `OnRecvRTCP` end without the value that
-- they announce, and are taken to return.
pub mod Common
pub mod Memory
pub mod Crc32
pub mod Relay
pub mod Forward
pub mod Rtp
pub mod Session
pub mod Rtcp
pub mod Tools
pub mod Stun
pub mod Connection
pub mod Pool
pub mod Stream
pub mod Server
pub mod Sdp
pub mod Tests
