-- ===== src/Browse.antt =====
-- internal/browse: the read-only web pages. `git` is the runner: the directory and the arguments give
-- the output, or none where git fails. A template is a constructor of `Page` with what it is given.
pub mod Paths
pub mod Text
pub mod Tls
pub mod Blob
pub mod Views
pub mod Pages
