-- ===== src/Prelude.antt =====
-- What the other modules share: the libraries' names, and what stands for C++: exceptions,
-- `std::map`, `std::string` and the conversions between numbers and texts.
mod Basics
mod Outcome
pub mod StdMap
pub mod Text
pub mod Number
pub mod Exec
pub use Basics.*
pub use Outcome.*
