-- ===== src/Door/Download/Reserving.antt =====
-- `download` with the `Reserve` that follows its checks (internal/door/door.go).
