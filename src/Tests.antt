-- ===== src/Tests.antt =====
-- The theorems at concrete inputs, over a toy database and toy libraries.
mod Toy
mod Data
mod Requests
mod Discovery
mod Configuration
mod Events
mod Session
mod Browsing
mod Threads
mod Tree
