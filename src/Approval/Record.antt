-- ===== src/Approval/Record.antt =====
-- internal/platform/approval/approval.go: the record of an approval, and its two status fields, which
-- are texts there and here. A `time.Time` is in nanoseconds, its zero value 0, and a nil pointer `none`.
use text.Mathlib.TextEquality.{eq_iff}
use ecommerce_ops_agent.Base.{ℕ, ◌≢◌, String, Option, arith}

abbrev pub pending : String
pending = "pending"

abbrev pub approved : String
approved = "approved"

abbrev pub rejected : String
rejected = "rejected"

abbrev pub not_started : String
not_started = "not_started"

abbrev pub executing : String
executing = "executing"

abbrev pub completed : String
completed = "completed"

abbrev pub failed : String
failed = "failed"

-- Two minutes, and the number of claims that an approval admits.
abbrev pub lease : ℕ
lease = 120000000000

abbrev pub max_attempts : ℕ
max_attempts = 5

pub record Approval : Type 0 where
  pub id : String
  pub workspace_id : String
  pub conversation_id : String
  pub action : String
  pub payload : String
  pub status : String
  pub approver_id : String
  pub created_at : ℕ
  pub resolved_at : Option ℕ
  pub execution_status : String
  pub execution_started_at : Option ℕ
  pub execution_completed_at : Option ℕ
  pub execution_error : String
  pub execution_lease_until : Option ℕ
  pub execution_attempts : ℕ
  pub execution_token : String

pub data Error : Type 0 where
  not_found already_resolved execution_unavailable ids_required checkpoint_exists no_checkpoint :
      Error
  not_approved : String → Error

pub pending_not_approved : ◌≢◌ {A = String} pending approved
pending_not_approved = ground (arith, eq_iff "pending" "approved")

pub executing_not_started : ◌≢◌ {A = String} executing not_started
executing_not_started = ground (arith, eq_iff "executing" "not_started")

pub executing_not_failed : ◌≢◌ {A = String} executing failed
executing_not_failed = ground (arith, eq_iff "executing" "failed")

pub executing_not_completed : ◌≢◌ {A = String} executing completed
executing_not_completed = ground (arith, eq_iff "executing" "completed")

pub completed_not_started : ◌≢◌ {A = String} completed not_started
completed_not_started = ground (arith, eq_iff "completed" "not_started")

pub completed_not_failed : ◌≢◌ {A = String} completed failed
completed_not_failed = ground (arith, eq_iff "completed" "failed")

pub not_started_not_failed : ◌≢◌ {A = String} not_started failed
not_started_not_failed = ground (arith, eq_iff "not_started" "failed")
