-- ===== src/Lib.antt =====
-- A model of the squawk UPnP media server, and what is proved of it.
--
-- The program reads and writes the content directory in Redis (src/datastore.h), answers the control
-- requests of UPnP clients over HTTP (src/server.cpp) with DIDL-Lite documents (src/didl.cpp), announces
-- itself and answers searches by SSDP (src/ssdpserver.cpp and the two connections), reads the descriptions
-- of other devices (src/device.h), and is set up by main.cpp from a stored configuration (src/config.h) and
-- the options of the command line.
--
-- Prelude: results with the faults that the code throws, texts and `std::map`, `std::stoi` and
--   `std::to_string`, and member functions that may throw after they have changed their object.
-- Datastore: src/datastore.h. Redis.antt is the client, a parameter; Keys.antt and NodeType.antt are the
--   keys and the types, Data.antt the functions of `struct data`, and Data/Tree.antt the tree that the
--   functions on the content relations change, whose order and scores are forgotten.
-- Config: src/config.h. `getifaddrs` is a list of interfaces, rapidjson the parameter `Json`.
-- Xml: the use of rapidxml, and `FOR`, `element` and `attr` of src/_utils.h. A document is the list of the
--   calls that build it; Xml/Tree.antt is the tree that they build.
-- Command: `UpnpCommand` of src/server.h, and `Server::parse`.
-- Didl: src/didl.cpp, one function for each run of statements of `Didl::write`, in their order.
-- Server: the class `Server`, and src/upnpheaders.cpp. A handler is the list of the calls that it makes on
--   the response and on the publisher, also where it throws. Browse.antt is the browse action, Callback.antt
--   the stripping of a callback, Control.antt the handlers, Documents.antt and Texts.antt the documents that
--   they send, Start.antt the constructor, Events.antt its subscriber and what a sequence of requests and
--   the messages that they publish do until one ends the process, Headers.antt `UpnpHeaders::execute`.
-- Ssdp: Headers.antt has the messages, Server.antt `SSDPServerImpl`, with its constructor in
--   Lifetime.antt and its threads, the destructor included, step by step, in Threads.antt, Connection.antt
--   and Client.antt the two connections, Event.antt `SsdpEvent` and its parsing. A `Network` says which
--   sockets open and which datagrams they take.
-- Device: src/device.h.
-- Icons: the images of src/_icons.h, the larger ones in parts; Icons/Png.antt is the format that they have.
-- Main: main.cpp. Main.antt is the set-up, Launch.antt goes on to the call of `announce` before the loop of
--   `main`, from where the steps of Threads.antt go on, Routes.antt is the table of routes.
-- Tests: the theorems at concrete inputs, over a toy database and toy libraries.
--
-- Handlers call the data store and the DIDL-Lite writer; a client's callback is published in Redis, where
-- the subscriber of the same `Server` gets it, keeps it, and sends a first event. The set-up stores the
-- configuration that the `Server` then reads, and hands it to the SSDP server itself. The announcing thread,
-- the receiving connection and the owner of the SSDP server share the namespaces, which do not change after
-- the constructor, the flag and the network: Threads.antt interleaves their steps. A datagram of the
-- announcing thread or of the owner is one step, the handling of a request is one as a whole; a step that
-- throws ends the process, as no thread of the server catches it.
--
-- Bounds: an `int` has 32 bits, and where an addition would overflow the model gives a fault; the seconds of
-- the announcing thread wrap at 2^32 as `unsigned int` does, and a `short` at 2^16. The loop of `to_map` runs
-- half as many rounds as there are words, two of which each round takes. The tree of a document is cut at a
-- depth, 5 for the description, whose nodes are at most 5 deep. An announcing thread is run for a list of
-- clock readings, a client connection for the list of the responses that come before its socket is closed.
--
-- Not modelled: logging, the text of the help, the signal handler, which exits without the destructors, and
-- the choice of a route by its pattern, which the HTTP library makes. The libraries (redox, rapidxml,
-- rapidjson, asio, the HTTP library, boost and cxxopts) are parameters. `atoi` of a number that is no `int` is a parameter, too.
pub mod Prelude
pub mod Datastore
pub mod Config
pub mod Xml
pub mod Command
pub mod Didl
pub mod Server
pub mod Ssdp
pub mod Device
pub mod Icons
pub mod Main
pub mod Tests
