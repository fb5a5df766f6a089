-- ===== src/Io.antt =====
-- src/BeginIO.c: the dispatcher of commands, and the abortion of a request.
pub mod Begin
pub mod Abort
pub mod Query
