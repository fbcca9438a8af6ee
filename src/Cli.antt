-- ===== src/Cli.antt =====
-- src/rosy/cli/: the logic of the commands; parsing of the command line and printing are left out.
pub mod Args
pub mod Bag
pub mod Launch
pub mod Listing
pub mod Send
pub mod Speedtest
