-- ===== src/Examples.antt =====
-- Concrete values for what the development takes as parameters, used by the examples of each part.
pub mod Numbers
pub mod Crates
pub mod Messages
pub mod Entities
pub mod Reader
