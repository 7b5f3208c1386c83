-- ===== src/Commands.antt =====
-- The commands, cmd/logship-cli/main.go, cmd/logship/main.go and cmd/bench/main.go. What the flags
-- of the command line come to and what the network answers are arguments.
pub mod Consume
pub mod Settings
pub mod Bench
