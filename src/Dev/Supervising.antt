-- ===== src/Dev/Supervising.antt =====
-- The supervisor through all orders of its events.
