-- ===== src/Tests.antt =====
-- The theorems at concrete inputs, on one small installation.
mod Sample
mod Payment
mod Platform
mod Service
mod Vpn
