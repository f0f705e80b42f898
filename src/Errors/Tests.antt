-- ===== src/Errors/Tests.antt =====
-- The values of the errors at a concrete one.
