-- ===== src/Examples.antt =====
-- The theorems at concrete inputs, and the libraries that they are applied to.
mod Service
mod Runs
mod Libraries
mod Blocks
mod Space
mod Memory
mod Strings
mod Enclaves
mod Requests
mod Updates
mod Initials
mod Secrets
mod Stores
mod Workers
