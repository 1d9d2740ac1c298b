-- ===== src/Http.antt =====
-- Requests, responses and buffered input and output of the web server and its client.
pub mod Rio
pub mod Result
pub mod Request
pub mod Client
pub mod Fileset
pub mod RoundTrip
pub mod Delivery
mod Tests
