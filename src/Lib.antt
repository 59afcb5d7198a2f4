-- ===== src/Lib.antt =====
-- quicsend: HTTP/3 messages between a server and its clients over QUIC, in C++ on top of the
-- quiche library and of Boost.Asio. A connection (QuicheConnection) is driven by datagrams, by
-- timers, by the pass of a sending thread and by the calls of the application; its mutex makes
-- each method one step. It hands finished messages to callbacks, and those post events into a
-- mailbox (QuicheMailbox) that the thread of the application polls. The server accepts
-- connections whose clients return an address-validation token, and compares the authorization of
-- their first request with its own. Paths below are from the root of the repository.
--
-- What stands behind a call of another library is a parameter. Asio is the record of what is used
-- of the endpoints of Boost.Asio, with its laws in AsioLaws and a concrete instance in
-- Asio/Concrete; Quiche is the record of what is used of quiche, a state and the functions on it,
-- with the laws that theorems rely on in Quiche/Laws. The examples give a concrete quiche of
-- which those laws are proved.
--
-- The files:
-- - Base and its children: shared names, lists, integers, bytes and association lists over the
--   native numbers.
-- - Wire: write_uint16_le and the like of include/quicsend_tools.hpp, on lists of bytes.
-- - ConnectionId: the connection ids of include/quicsend_quiche.hpp, their equality and hash.
-- - Token: mint_token and read_token of src/quicsend_quiche.cpp. The outcomes of read_token
--   include the overrun of its memcpy and the exception of to_v4 and to_v6.
-- - Sockaddr: to_sockaddr and sockaddr_to_endpoint of the same file.
-- - Allocator: SendAllocator and QuicheSocket::Send. A buffer is a number, its payload is in a
--   store, and the completion of a send is a step of its own.
-- - Connection: the state of QuicheConnection, the world it runs in (the memory of quiche, the
--   socket, the state of the application) and the callbacks. Connection/Streams has
--   IncomingStream and OutgoingStream, Connection/Transfers has FlushTransfers and the sends of
--   SendBody, Connection/Responses has FlushCachedResponses, Connection/Egress has FlushEgress
--   and TickTimeout, Connection/Lifecycle has Close and ComparePeerCertificate,
--   Connection/Requests has SendRequest, SendResponse and SendBody, Connection/Events has
--   OnDatagram and ProcessH3Events; Quiche/Arrivals is the view of what the library has handed
--   over, and Connection/Events/Assembly puts messages together from it.
-- - Mailbox: QuicheMailbox. Each call holds the mutex, so that runs are sequences of calls.
-- - Messages: the headers that QuicSendClient::Request and QuicSendServer::Respond build, and
--   BodyData.
-- - Logger: Logger of src/quicsend_tools.cpp. Each action is what happens while one thread holds
--   the mutex or between two such moments, and the place of the thread says where it is in
--   RunLogger.
-- - Errors: the tables of error names in src/quicsend_quiche.cpp.
-- - Text: what ToString, DumpHex and EndpointToString print.
-- - Sender: QuicheSender, the two maps and the pass of its thread. What the pass reads from the
--   node of the map that it has erased is a parameter. The memory of a connection is never taken
--   back in the model, since shared pointers count who still needs it.
-- - Server: the constructor of QuicSendServer in src/quicsend_server.cpp and the callbacks of its
--   connections; Server/Dispatch has OnDatagram with SendVersionNegotiation, SendRetry and
--   CreateConnection, and QuicheConnection::Accept; Server/Replies has Respond, Close and the
--   passes of the sending thread. The calls of quiche on packets alone are the record Packets.
-- - Certificates and Config: LoadPEMCertAsDER of src/quicsend_tools.cpp; CreateQuicheConfig and
--   the constructor of QuicheSocket in src/quicsend_quiche.cpp.
-- - Client: src/quicsend_client.cpp, the callbacks of the connection, Close and Request;
--   Client/Connecting has the constructor, QuicheConnection::Connect with its timer, the handler
--   of the resolver and the way of a datagram to the client. There conn_ may be null, and a call
--   of quiche on it is an outcome of its own.
-- - Api: src/quicsend_python.cpp, the C interface. An object of Python is its buffer, and the
--   interpreter is the calls that reach the application.
-- - Examples: the theorems at concrete inputs.
--
-- Fuel: the loop of FlushEgress has fuel for each packet that quiche can still write and one
-- round more; the loops of ProcessH3Events take their fuel from the caller, more than the events
-- and the reads that the library has is enough, and running out of it is an outcome of its own; a
-- loop over a body whose reads go on to fail uses up any fuel.
--
-- Not modelled: the options of the socket, the clock, the thread that runs the I/O context, the
-- order of the destructors, and the Python package. Times are not modelled: a timer may expire at
-- any moment. An exception of sockaddr_to_endpoint that leaves FlushEgress is followed in
-- OnDatagram and in the passes of the sending thread; in SendBody and in the timer of a
-- connection of the server the model goes on as if FlushEgress had returned.
pub mod Base
pub mod Wire
pub mod ConnectionId
pub mod Asio
pub mod Text
pub mod Token
pub mod Sockaddr
pub mod Allocator
pub mod Quiche
pub mod Connection
pub mod Logger
pub mod Errors
pub mod Mailbox
pub mod Messages
pub mod Sender
pub mod Server
pub mod Client
pub mod Api
pub mod Certificates
pub mod Config
pub mod Examples
