-- ===== src/Users.antt =====
-- Users of the nibe1155 server: the objects that are checked at its boundary, their passwords, and the
-- tokens of a login.
pub mod Attribute
pub mod User
pub mod Password
pub mod Auth
mod Tests
