-- ===== src/Mnt.antt =====
-- The mount driver, kern/devmnt.c: the requests that are sent to a server, their tags, and the
-- processes that wait for the answers.
pub mod Tags
pub mod Requests
pub mod Mux
pub mod Reply
mod Tests
