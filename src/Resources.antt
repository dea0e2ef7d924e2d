-- ===== src/Resources.antt =====
-- src/specode_review/resources.py: the names that an attempt owns, the removal of what it made, and the
-- sweep of what earlier attempts left.
mod Names
mod Manager
mod Owned
mod Contract
mod Sweep
mod Cleanup
mod Spared
mod Tests
unfoldable pub use Names.{is_attempt_id, is_prefix, is_sandbox_name, is_owned, for_attempt}
pub use Names.{AttemptResources, is_hex_digit, is_word, is_word_start, workspace_prefix}
