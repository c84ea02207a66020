-- ===== src/Shell.antt =====
-- The shell of task1_shell/shell.c. A text is a list of bytes without NUL: its end is the NUL.
pub mod Words
pub mod Background
pub mod Builtins
pub mod Descriptors
pub mod Execute
pub mod Commands
mod Tests
