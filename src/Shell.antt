-- ===== src/Shell.antt =====
-- The command shell of shell/: its line is cut at the pipes and parsed into a tree of commands.
pub mod Text
pub mod Command
pub mod Parsing
pub mod Environ
pub mod Builtin
pub mod Run
mod Loop
mod Words
mod Variables
mod Pipes
mod Examples
pub mod Execute
mod Redirect
