-- ===== src/Shell/Tests.antt =====
-- The shell of the sample disk.
