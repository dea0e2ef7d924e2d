-- ===== src/Models/Tests.antt =====
-- Bounded descriptions of concrete pull requests.
