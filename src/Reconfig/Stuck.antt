-- ===== src/Reconfig/Stuck.antt =====
-- What a reconfiguration that fails halfway leaves.
