-- ===== src/Campaign.antt =====
-- src/specode_review/campaign.py: a review of the installed service that is triggered, waited for, and
-- proved by its comment and its journal.
mod Target
mod Records
mod Completed
mod Host
mod Run
mod Sound
mod Proven
mod Ends
mod Tests
