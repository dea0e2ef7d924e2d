-- ===== src/Sandbox.antt =====
-- src/specode_review/sandbox.py: the sandbox in which the model reviews a checkout.
pub mod Client
mod Control
mod Life
mod Adapter
mod Reports
mod Intact
mod Sound
mod Tests
