-- ===== src/Tests.antt =====
-- Runs of the definitions on concrete inputs, and the theorems applied there.
mod Objstore
mod World
mod Importer
mod Manifest
mod Batching
mod Staging
mod Peat
mod Controller
mod Cluster
mod Send
mod Import
mod Ledger
mod Reshipped
mod Replication
mod Bridge
mod Landed
mod Main
mod Credentials
mod Handover
