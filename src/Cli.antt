-- ===== src/Cli.antt =====
-- The command-line tool: cmd/aitherion-cli. The children are the start of the containers and the
-- menu that configures the nodes.
pub mod Containers
pub mod Topology
pub mod Network
pub mod Menu
mod Tests
