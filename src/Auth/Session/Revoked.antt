-- ===== src/Auth/Session/Revoked.antt =====
-- Whose sessions are revoked, and what their tokens stand for then.
