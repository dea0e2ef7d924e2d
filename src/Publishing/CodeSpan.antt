-- ===== src/Publishing/CodeSpan.antt =====
-- `_longest_backtick_run` and `_render_code_span` of src/specode_review/publishing.py.
pub mod Run
pub mod Delimiter
pub mod Width
unfoldable pub use Run.{longest_run_from, longest_backtick_run, render_code_span, backtick}
