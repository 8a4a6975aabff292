-- ===== src/Writer/Agree.antt =====
-- A write that is sent to the writer does what it does without one.
