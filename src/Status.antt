-- ===== src/Status.antt =====
-- src/ui/status-center, src/ui-layer/status-center.ts, src/api/grpc and src/domain/notifications:
-- what the user is told of the program's state.
pub mod Errors
pub mod Entry
pub mod Center
pub mod Notices
