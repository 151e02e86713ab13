-- ===== src/Examples.antt =====
-- Runs of the models at concrete inputs, which show that the theorems' hypotheses can hold.
mod Json
mod Keys
mod Stores
mod Vaults
mod Policies
mod Clients
mod Listings
mod Sharing
mod Daemon
mod Factors
mod Services
mod Audits
