-- ===== src/Department.antt =====
-- Departments, their members, the resources shared with them, and who may reach a resource:
-- app/department/models.py and app/department/service.py.
pub mod Models
pub mod Service
pub mod Access
pub mod Integrity
pub mod Membership
