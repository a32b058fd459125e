-- ===== src/Actor/Backoff.antt =====
-- The time that an actor waits before it is restarted.
