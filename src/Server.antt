-- ===== src/Server.antt =====
-- server/: the server program.
pub mod Inbox
pub mod Profile
pub mod World
pub mod Document
pub mod Registry
pub mod Graph
pub mod ProfilesManager
pub mod ProfileAccessController
pub mod ServerList
pub mod Election
pub mod Main
pub mod Start
