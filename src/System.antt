-- ===== src/System.antt =====
-- utils/sys_utils.go and helpers/command_execer.go: what the program asks of the operating system.
-- `Path` has file paths and glob patterns, `Files` the file tree, `Calls` the calls on it and the
-- commands; `FilesLaws` and `PathLaws` have the lemmas that the other parts use.
mod Path
mod Files
mod Calls
pub mod ExitCodes
pub mod PathLaws
pub mod FilesLaws
pub mod Keeps
pub mod Stable
unfoldable pub use Path.*
unfoldable pub use Files.*
unfoldable pub use Calls.*
