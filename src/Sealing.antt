-- ===== src/Sealing.antt =====
-- Commit and reveal: domain/sealing/ of src/thief_peer (payload.py, commit.py, audit.py, exchange.py).
pub mod Payload
pub mod Secrecy
pub mod Binding
pub mod Audit
pub mod Verdict
pub mod Exchange
pub mod Protocol
mod Tests
