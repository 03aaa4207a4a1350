-- ===== src/Tests.antt =====
-- Runs of the definitions on concrete inputs.
mod Sorts
mod Idle
mod Confinement
mod Database
mod Layers
mod Tables
mod Runs
mod Stores
mod Records
mod Contents
mod Requests
mod References
mod Imports
mod Sessions
