-- ===== src/Samples.antt =====
-- Concrete hosts, definitions and records, and what they show of the development's statements.
mod Overlay
mod Alloc
mod Lab
mod Migrated
mod Release
mod Ports
mod Whole
mod Checked
mod Clusters
mod Machines
mod Secrets
mod Zones
mod Sites
mod Runs
mod Mains
mod Fetches
