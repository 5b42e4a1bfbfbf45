-- ===== src/Tests.antt =====
-- Runs of the model at concrete inputs, and the theorems at inputs that meet their hypotheses.
mod Bytes
mod Http
mod Server
mod HttpServer
mod Database
mod Network
mod Listing
mod Connections
mod Accept
