-- ===== src/Approval.antt =====
-- The execution authority of src/webwire/safety/execution_models.py: the authorization epoch, the
-- approval grant and the execution attempt.
pub mod Grant
pub mod Attempt
mod Examples
