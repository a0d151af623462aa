-- ===== src/Os/System.antt =====
-- The systems: the satellite runs in a Linux container, the client on Linux or macOS.
pub data Os : Type 0 where
  linux darwin : Os
