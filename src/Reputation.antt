-- ===== src/Reputation.antt =====
-- Reputation reports: app/trust/report.py, and their rendering by app/narrative/reputation.py.
pub mod Report
pub mod Render
