-- ===== src/Tests.antt =====
-- Runs of the model at concrete data, and the theorems there.
mod World
mod Files
mod Databases
mod Writers
mod Servers
mod Streams
mod Calls
mod Clients
mod Routes
mod Jobs
mod Lifetimes
mod Systems
mod Crowds
mod Newcomers
mod Retries
mod Paths
mod Watchers
mod Starts
mod Screens
mod Menus
