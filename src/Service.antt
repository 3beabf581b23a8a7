-- ===== src/Service.antt =====
-- internal/serviceconfig: the services that are offered to clients and those that are called for them.
pub mod Handler
pub mod Endpoints
pub mod Credentials
pub mod Generic
pub mod Aws
pub mod Kubernetes
pub mod Outgoing
pub mod Failure
pub mod Config
