-- ===== src/Oci.antt =====
-- The OCI tools of tools/: the inspector of a layout, the workspace handoff, the registry probe
-- and the acquisition of an image.
pub mod Refusal
pub mod Act
pub mod Disk
pub mod Inspect
pub mod Cycles
pub mod Index
pub mod Each
pub mod Passes
pub mod Acyclic
pub mod Halting
pub mod Integrity
pub mod Verified
pub mod Referrers
pub mod Handoff
pub mod Publish
pub mod Verify
pub mod Canonical
pub mod Blobs
pub mod RoundTrip
pub mod Registry
pub mod Connection
pub mod Fetch
pub mod Probe
pub mod Plan
pub mod Acquire
pub mod Public
pub mod Complete
pub mod Atomic
mod Fixtures
mod RegistryTests
mod HandoffTests
mod Tests
