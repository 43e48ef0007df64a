-- ===== src/Sshcmd.antt =====
-- internal/sshcmd: the ForceCommand gateway behind the patched sshd.
pub mod Tokenize
pub mod Identity
pub mod Gateway
