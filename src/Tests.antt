-- ===== src/Tests.antt =====
-- Runs of the definitions on concrete input, and the theorems at such input.
mod Contract
mod Image
mod Deploy
mod Webhook
mod Security
mod Drill
mod Rotation
mod Cluster
mod Replica
mod Rollback
mod Preflight
mod Load
mod Waits
