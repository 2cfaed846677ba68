-- ===== src/Lib.antt =====
-- A verification library for an anonymous communication network whose nodes run in SGX enclaves.
--
-- The program. Users hand messages to the enclave of their node. A message goes through a chain of
-- rounds: it is announced to the quorum of the sender, agreed on there, injected into a butterfly
-- routing over a hypercube of quorums, predelivered and delivered. In every round each enclave
-- sends the same amount of encrypted data, with dummies in place of missing messages. A login
-- server hands out keys and the first quorums; from then on the overlay changes by itself.
--
-- The files and the code.
--   Serial, Peer, Message: include/serialization.h, include/shared_structs.h and
--     client/trusted/structures.h. A `deserialize` is a reader of the bytes from the cursor on.
--   Crypt: include/cryptlib.cpp. Config: include/config.h and client/trusted/helpers.h.
--   Agreement, Routing, Overlay, Neighbors: client/trusted/distributed_agreement_scheme.cpp,
--     client/trusted/routing_scheme.cpp, client/trusted/overlay_structure_scheme.cpp and
--     include/shared_functions.h.
--   Vote and Client: client/trusted/client_enclave.cpp; `ClientEnclave` is the state, and each
--     handler is a function from the state to a result. `traffic_out` is put together from its
--     phases in Client/Agreements, Client/Outgoing and Client/TrafficOut; Client/Aad is
--     client/trusted/structures/aad_tuple.h.
--   Layout: the memory of peers, join messages and init messages in include/shared_structs.h, as
--     writers over the cells of fresh memory and readers of bytes. Client/Start, Client/Join and
--     Server/Join are the handlers that use it.
--   Server: server/trusted/server_enclave.cpp.
--   Text, Command: client_interface/main.cpp, the program for commands of the user, and what it
--     uses of the numbers and words of the C++ library.
--   Untrusted: the processes around the enclaves. Untrusted/User, Untrusted/Sockets and
--     Untrusted/Node are client/untrusted/network/network_manager.cpp and
--     client/untrusted/client.cpp, Untrusted/Launch is `initialize_enclave` of both programs,
--     Untrusted/Errors is include/errors.h, and Untrusted/Server is server/untrusted. A node is its
--     network manager and its enclave; what a round of its loop meets is an argument, and what it
--     does with sockets a list of calls.
--   Client/Calls has the entry points of the enclave. Display has the conversions to text, and the
--     texts about messages that could not be sent.
--   Network puts the parts together: Network/Boot the server, its clients and their nodes up to the
--     start, Network/Round and Network/Arrival a round of one node and the nodes that it reaches,
--     Network/Mail what is in their mailboxes then. Agreement/Quorum runs the agreement at all nodes
--     of a quorum, in rounds in which all that is sent arrives in the next one.
--   Client/Mailbox and Client/Reachable see the enclave from outside: as a map from rounds to
--     mailboxes, and as a step relation over the calls of its handlers.
--   Base holds what all files share, Std the containers of the C++ library, Tests the concrete
--     inputs.
--
-- How the code is modelled.
--   Members keep their names without the underscore at the end. A handler that changes the state
--     returns the new one; a failed assertion, an exception of `.at`, a step that C++ leaves
--     undefined and any other exception are the four faults of a result. Assertions are live, as in
--     the default build.
--   Numbers are natural numbers; where the code computes in 64 or 32 bits, the wrap-around is
--     written out. A number that is handed over as an `int` or an enumeration keeps its 32 low
--     bits. A shift of an `int` takes its count modulo 32, as the processor does.
--   Maps and sets are sorted lists, and two keys are the same if neither is below the other.
--     `std::sort` is a stable insertion sort, and a priority queue lets equal elements out in the
--     order in which they came; the library leaves both orders open.
--   The primitives of the SGX SDK, random numbers, the clock, and the contents of members that a
--     constructor leaves unset are arguments. What the SDK documents of the primitives is the
--     record `Crypt.IsLawful`. The two bounds that the client computes in floating point are
--     parameters of `Client.Start.received_init`.
--   Loops are structural recursion over the collection or over the number of rounds left. The loop
--     over the clients of a quorum in Server has the number of clients as fuel; its index grows
--     in every round and stays below that number.
--   The two loops of the untrusted programs are recursion over the list of what their rounds meet.
--     Numbers are written with 20 digits at most, as many as 64 bits need.
--   Not modelled: when the log is written, ZeroMQ and the operating system behind the calls, and the
--     glue that the SDK generates from the interface descriptions.
pub mod Base
pub mod Serial
pub mod Std
pub mod Config
pub mod Text
pub mod Peer
pub mod Layout
pub mod Message
pub mod Agreement
pub mod Vote
pub mod Crypt
pub mod Routing
pub mod Neighbors
pub mod Overlay
pub mod Client
pub mod Server
pub mod Command
pub mod Untrusted
pub mod Display
pub mod Network
pub mod Tests
