-- ===== src/Api.antt =====
-- internal/api: the HTTP server. Routing by package net/http is taken for granted: a request comes with
-- the pattern that it matches.
pub mod Requests
pub mod Server
pub mod Guarded
pub mod Paid
pub mod Pages
mod Tests
