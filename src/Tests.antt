-- ===== src/Tests.antt =====
-- Tests of the model at concrete inputs, and the witnesses of its theorems.
mod Strings
mod Tokens
mod Certificates
mod Credentials
mod Headers
mod Responses
mod Sessions
mod Routes
mod Connections
mod Controllers
mod Endpoints
mod Kubernetes
mod Services
mod Authorities
mod Configurations
mod Startups
mod Locks
mod Calls
mod Bootstraps
mod Commands
