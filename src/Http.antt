-- ===== src/Http.antt =====
-- src/http_server.rs: the HTTP server. Its configuration, the head of a request (Http/Head), the
-- event streams (Http/Streams), the checks on a request (Http/Guards), and what is done with it
-- (Http/Routes), and the escape of texts on the dashboard (Http/Dashboard).
pub mod Head
pub mod Paths
pub mod Streams
pub mod Guards
pub mod Routes
pub mod Dashboard
