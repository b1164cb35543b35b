-- ===== src/Rbac.antt =====
-- Roles and permissions: backend/domain/rbac/service.py and the dependencies of
-- backend/core/security/rbac.py.
pub mod Queries
pub mod Seed
pub mod Assign
pub mod Permission
pub mod Escalation
pub mod Policy
