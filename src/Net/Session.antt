-- ===== src/Net/Session.antt =====
-- A session: a receiver and a sender that are each given the messages of the other.
pub mod Exchange
pub mod Whole
pub mod Content
