-- ===== src/Pdns.antt =====
-- internal/pdnsclient: the client of the PowerDNS HTTP API.
pub mod Types
pub mod Client
