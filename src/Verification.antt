-- ===== src/Verification.antt =====
-- src/specode_review/verification.py: the proof that an installed host is ready, from its units to its
-- sandboxes.
pub mod Url
mod Host
mod Probe
mod Verifier
mod Served
mod Clean
mod Poll
mod Tests
