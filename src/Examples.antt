-- ===== src/Examples.antt =====
-- A concrete platform, and the theorems at concrete inputs.
mod Codec
mod Documents
mod Bench
mod Recovery
mod Tokens
mod Answers
mod Deliveries
mod Readings
mod Reports
