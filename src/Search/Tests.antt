-- ===== src/Search/Tests.antt =====
-- Search at concrete inputs.
