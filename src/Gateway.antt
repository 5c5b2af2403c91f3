-- ===== src/Gateway.antt =====
-- src/webwire/safety/commit_gateway.py: the authority to commit one external effect.
mod Examples
pub mod State
pub mod Owner
pub mod Retire
pub mod Permit
pub mod Consume
pub mod Mint
pub mod Authorize
pub mod Actions
pub mod Run
pub mod Later
pub mod Once
pub mod Commit
pub mod Minting
pub mod Outcome
pub mod Fact
