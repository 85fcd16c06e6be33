-- ===== src/Api.antt =====
-- api/v1alpha1: the resources of the runner, with the source's fields under its own names.
pub mod Meta
pub mod Rollout
pub mod Pipeline
pub mod Job
pub mod Task
pub mod Payloads
