-- ===== src/Examples.antt =====
-- Concrete runs of the modelled code, and the theorems at inputs that meet their hypotheses.
mod Data
mod Requests
mod Capacity
mod Listing
mod Events
mod Names
mod Scheduler
mod Deployments
mod Views
mod Profiles
