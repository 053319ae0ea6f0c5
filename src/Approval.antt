-- ===== src/Approval.antt =====
-- internal/platform/approval and internal/platform/approval_gate.go: the approvals of sensitive tool
-- calls, their execution leases, and the checkpoints that a run resumes from.
pub mod Record
pub mod Store
