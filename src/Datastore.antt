-- ===== src/Datastore.antt =====
-- src/datastore.h: the nodes of the content directory and the Redis commands that read and write
-- them.
pub mod Param
pub mod Name
pub mod Key
pub mod NodeType
pub mod Redis
pub mod Keys
pub mod Data
