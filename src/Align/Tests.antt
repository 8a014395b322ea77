-- ===== src/Align/Tests.antt =====
-- A run of `align_usize`.
