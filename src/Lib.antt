-- ===== src/Lib.antt =====
-- The extension of the quic gem: a QUIC client for Ruby on top of ngtcp2 and LibreSSL.
--
-- The program. ext/quic/connection_client.c holds Quic::Connection::Client, ext/quic/stream.c
-- Quic::Stream, ext/quic/quic.c the exceptions, and lib/quic/connection.rb the I/O loop. The
-- application writes to streams; a write goes into the stream's @pending_chunks. #write_pkt picks a
-- stream, hands its next unsent bytes to ngtcp2, and counts what ngtcp2 put into the packet.
-- #read_pkt hands a datagram to ngtcp2, which calls back: data goes into @recv_buffer,
-- acknowledgements shift @pending_chunks, and the streams of the server go into @accept_queue.
--
-- Which file models what.
--   Base, Ruby        helpers; the values, encodings and exceptions of Ruby, and Hash
--   Errors            quic_raise_ngtcp2_error and the exception classes of ext/quic/quic.c
--   Stream            quic_stream_t of ext/quic/stream.h, and of ext/quic/stream.c
--                     quic_stream_enqueue, _close_write_m, _read_nonblock_m and _eof_p
--   Ngtcp2            the interface to ngtcp2: a record of calls on an opaque connection
--   Client.Objects    the stream objects, @streams and @accept_queue; a reference is a number
--   Client.Callbacks  the five stream callbacks of ext/quic/connection_client.c
--   Client.State      quic_client_t, @sock, and the datagrams sent
--   Client.Picker     quic_client_pick_send_stream
--   Client.Packets    quic_client_write_pkt, _read_pkt, _expiry, _handle_expiry and the queries
--   Client.Io         the methods of Quic::Stream that use the connection: write_nonblock,
--                     close_read, close, reset; and the opening of streams
--   Client.Close      quic_client_close_m
--   Client.Pump       Client#pump_once, #pump_until, #run and #pump_timeout of
--                     lib/quic/connection.rb, and the blocking #write on them
--   Client.Accept     Client#accept_stream_nonblock and #accept_stream of lib/quic/connection.rb
--   Client.Read       Stream#initiator and the blocking Stream#read of lib/quic/stream.rb
--   Client.Frame      what the callbacks and the turns of the I/O loop keep, for any relation
--                     between the state before and after that each of their steps keeps
--   Client.Stuck      #pump_once where ngtcp2 refuses the stream that is picked, as after a #reset
--                     with bytes left to send
--   Client.Rand       quic_rand_cb and quic_get_new_connection_id_cb
--   Client.Alpn, Client.Config, Client.Setup, Client.Open
--                     quic_client_open: ALPN, transport parameters and settings, the TLS session and
--                     the connection ids, and the resources acquired and released
--   Client.New        Client.new of lib/quic/connection.rb, with the defaults of
--                     lib/quic/transport_params.rb and lib/quic/settings.rb, and the path of
--                     #pump_once
--   Sender, Receiver  the proofs about what a stream sends and receives
--   Sender.Outbox     the abstract view of a sending side, a queue of unsent bytes
--   Sender.Flush      packets for a stream, one after the other
--   Sender.Run, Receiver.Session
--                     histories of a client: its operations in any order, with the bytes that
--                     each stream has been given, has framed, has received and has handed out
--   Sender.Retain     which chunks of @pending_chunks are kept while ngtcp2 points into them
--   Sender.Writing, Receiver.Reading
--                     the blocking #write and #read as parts of such histories
--   Tests             the theorems at concrete inputs
--
-- How state corresponds. A stream is a record with the fields of quic_stream_t and its instance
-- variables; a client is its connection, its objects and its socket. A method takes the client and
-- returns its result, a value or a raised exception, with the new client. A call of ngtcp2 returns
-- its new connection, the list of the callbacks that it made, and its result; the callbacks run
-- before the code behind the call does, as in the source. The clock is an argument.
--
-- Bounds and fuel. uint64_t arithmetic is written with its wrap-around. Lengths of Strings are
-- below 2^63, as in Ruby; a theorem that needs it has that as a hypothesis. Stream ids are natural
-- numbers, since ngtcp2 calls back with none that is negative. The loop of Client#pump_once that
-- sends packets runs on fuel and is `none` without it. The blocking #write, #read and #accept_stream
-- take the turns of the I/O loop as a list and are `none` while they still wait; the two loops of
-- #read over the buffer have one round more than there are bytes. The timeouts and deadlines, in
-- seconds in lib/quic, are natural numbers of nanoseconds.
--
-- What is not modelled. ngtcp2 and LibreSSL, which the repository does not hold: they are
-- parameters, with what they promise as hypotheses. Memory management, the GC hooks of the two
-- classes (dsize, compact), frozen Strings, and the registration of methods in the Init functions:
-- glue with the libraries. Of quic_client_open, the table of callbacks and the links from the TLS
-- object to the client, which are constants. In lib/quic, the rounding of times that are
-- floating-point numbers there; Addrinfo of the socket library is a parameter.
pub mod Base
pub mod Ruby
pub mod Errors
pub mod Stream
pub mod Ngtcp2
pub mod Client
pub mod Sender
pub mod Receiver
pub mod Tests
