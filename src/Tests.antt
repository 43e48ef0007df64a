-- ===== src/Tests.antt =====
-- Concrete runs of the components, where the hypotheses of their theorems hold.
mod Gateway
mod Words
mod Repos
mod Restores
mod Pushes
mod Events
mod Hook
mod Bundles
mod Settings
mod Server
mod Staging
mod Commands
mod Web
mod Plugins
mod Jobs
