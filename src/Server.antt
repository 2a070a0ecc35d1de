-- ===== src/Server.antt =====
-- `upnp::Server` of src/server.h and src/server.cpp: the control requests of the content directory and
-- of the connection manager, the constructor with its subscriber, and `UpnpHeaders` of
-- src/upnpheaders.cpp.
pub mod Http
pub mod Texts
pub mod Soap
pub mod Callback
pub mod Browse
pub mod Documents
pub mod Control
pub mod Events
pub mod Start
pub mod Headers
