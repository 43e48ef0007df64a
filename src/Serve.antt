-- ===== src/Serve.antt =====
-- internal/serve/serve.go: the server. The channel of actions and its worker stand in Channel, the
-- actions in Work, the jobs for the mirror agent in Jobs, and the endpoints in Handlers.
pub mod Channel
pub mod Work
pub mod Jobs
pub mod Handlers
