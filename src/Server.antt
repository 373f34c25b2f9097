-- ===== src/Server.antt =====
-- server.c: the reply builders and the input loop of a client.
pub mod Reply
pub mod Read
pub mod Write
