-- ===== src/Ssdp.antt =====
-- The discovery of the server in the network: src/ssdpserver.h, src/ssdpserver.cpp,
-- src/ssdpserverconnection.cpp and src/ssdpclientconnection.cpp, and `create_header` of src/_utils.h.
pub mod Headers
pub mod Server
pub mod Connection
pub mod Event
