-- ===== src/Lib.antt =====
-- go-shadowsocks2: an encrypted tunnel proxy. A local end takes TCP connections and UDP datagrams, from
-- SOCKS5 clients or for a fixed target, and sends them encrypted to a remote end, which decrypts
-- them, reads the target address in front, and relays them.
--
-- The parts and their files:
--
--   shadowaead/stream.go   ShadowAead/Nonce (increment), ShadowAead/Stream (writer, reader: ReadFrom is
--                          read_from, Write is writer_write, read is read_record, Read is reader_read,
--                          WriteTo is write_to), ShadowAead/Conn (streamConn: the data types ReadSide and
--                          WriteSide say whether c.r and c.w are nil)
--   shadowaead/cipher.go   ShadowAead/Cipher; shadowaead/var.go is the argument `mask`
--   shadowaead/packet.go   ShadowAead/Packet
--   shadowstream/cipher.go ShadowStream/Cipher
--   shadowstream/stream.go ShadowStream/Stream (writer, reader), ShadowStream/Conn (conn); connBufSize of
--                          shadowstream/var.go is the argument `buf_len`
--   shadowstream/packet.go ShadowStream/Packet
--   core/cipher.go         Core (PickCipher, ListCipher), Core/Kdf (kdf)
--   core/stream.go, core/packet.go
--                          Core/Conns (Listen, Accept, Dial, ListenPacket, with StreamConn, PacketConn and
--                          the setters of core/cipher.go)
--   socks/socks.go         Socks/Addr, Socks/Handshake; Socks/Text has the functions of net and strconv
--                          that it calls
--   freconn                Freconn (freconn.go), Freconn/Counters (stat.go)
--   tcp.go                 Tcp (local_end and remote_end: what tcpLocal and tcpRemote do with a connection,
--                          for the bytes of the client), Tcp/Sessions (the same goroutines on every path,
--                          as lists of actions), Tcp/Relay (relay, the wait of a UDP association)
--   tcp_linux.go           Transparent
--   udp.go                 Udp/Relay (what each loop makes of a datagram), Udp/Nat (natmap, its sockets and
--                          goroutines)
--   main.go                Main, with strings.Split and strings.HasPrefix in Strings
--   clientlib/client.go    Client (Client, handleConn, Stop, Reset), Client/Sessions (handleConn and Reset
--                          under connResetRLock), Client/Room (ConnMap, with connLastSeen of
--                          clientlib/conn.go), Client/Datagrams (udpSocksLocal)
--   clientlib/tcp.go, clientlib/websocket.go
--                          Client/Dialers (TCPConnecter, WSConnecter)
--   clientlib/packetconn.go
--                          Client/Packets (udpLocal, udpRemote, timedCopy)
--   clientlib/manageAccel.go
--                          Manage (the package variables, setters and tests), Manage/Starts, Manage/Stops,
--                          Manage/Tunnels
--   websocket/packetconn.go
--                          Websocket (WSPacketConn, one function for a method), Websocket/Step (the calls,
--                          goroutines and timers taking turns)
--
-- Core picks a cipher, whose constructors are those of ShadowAead/Cipher and ShadowStream/Cipher; the
-- connections and packets take that cipher (Core/Conns); the tunnel, the UDP relay and the handshake use
-- Socks/Addr. Errors has Go's errors, Io has io.Reader, io.ReadFull and io.Writer: a Source is what a
-- reader will deliver, in which pieces and with which error at the end, a Sink is what was written and
-- how the next writes fail. State is passed along: an operation takes the state and returns it with its result. A module
-- Runs below a part has its witnesses; the other children of a part hold its proofs.
--
-- Not under the repository, and so parameters: the AEADs, with the laws that the documentation of
-- cipher.AEAD states (ShadowAead/Aead, IsAead); HKDF and the constructors of the AEADs; the stream
-- ciphers, with the law that decrypting undoes encrypting (ShadowStream/Cipher/Laws); MD5, of which only
-- the digest size is used; the bucket of the rate limiter. net.ParseIP and net.IP.String are parameters
-- with the law that they undo each other (Socks/Addr/Parse, IsIpText). Nothing is assumed about forgeries,
-- so nothing is said about an attacker.
--
-- Bounds and fuel: bytes and sizes are natural numbers; `byte`, uint16 and uint64 wrap where the code
-- converts or adds; an int does not wrap. Copy loops recurse on fuel and return `none` where it runs
-- out, which is no result of Go's. The fuel is the number of reads that the source can still answer
-- (Io, turns), the number of bytes to come, or one more than the length of the key: every turn of a loop
-- uses up one of them. A panic of Go's is the result `panic`, or `none` in
-- the copy loops of a connection.
--
-- Where goroutines share state, the model is a step relation: the NAT table (Udp/Nat), relay (Tcp/Relay),
-- the sessions of the client library (Client/Sessions) and WSPacketConn (Websocket/Step). Each step is
-- one turn of one goroutine, call or timer between two accesses to shared state, so every interleaving
-- is a sequence of steps. Where a goroutine is alone with what it uses, it is a function: of the errors
-- that its calls return, to the list of what it does (Client, Tcp/Sessions), or of the package variables
-- (Manage). gorilla/websocket, package net, PickCipher in Manage, base64, url.Parse and getsockopt stand
-- outside, and what they return is an argument.
--
-- Not modelled: the bytes from the target to the client, the transparent proxy's system calls, the
-- copies of tcpLocal and relay in clientlib, which repeat tcp.go, the worker goroutines of
-- clientlib/client.go that count connections, the mpx pool, which is a third party, the sample programs,
-- logging and the texts of errors.
pub mod Client
pub mod Core
pub mod Errors
pub mod Freconn
pub mod Io
pub mod Main
pub mod Manage
pub mod Prelude
pub mod ShadowAead
pub mod ShadowStream
pub mod Socks
pub mod Strings
pub mod Tcp
pub mod Transparent
pub mod Udp
pub mod Websocket
