-- ===== src/Publishing.antt =====
-- src/specode_review/publishing.py: the comment that a review becomes, and how it is published.
pub mod CodeSpan
pub mod SafeText
pub mod Render
pub mod Gateway
pub mod Comment
pub mod Publish
pub mod Contract
pub mod Confirmed
pub mod Tests
