-- ===== src/Root.antt =====
-- The root package: basic.go, server.go and proxy.go, the mode in which each connection is served by
-- a goroutine of its own.
pub mod Client
pub mod Server
pub mod Basic
pub mod ApiServer
pub mod Proxy
pub mod Link
