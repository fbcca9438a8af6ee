-- ===== src/Service.antt =====
-- src/rosy/node/service/: calling a service, and answering requests.
pub mod Caller
pub mod Remote
