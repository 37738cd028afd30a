-- ===== src/Tests.antt =====
-- The theorems at concrete inputs, and runs of the definitions.
mod States
mod Packets
mod Servers
mod Elections
mod Locks
mod Routers
mod Clients
mod Objects
mod Posts
mod Replicas
mod Restores
mod Starts
mod Threads
mod Failovers
mod Races
