-- ===== src/Controller.antt =====
-- pkg/infrastructure/controller and pkg/application/controller: the work queue's items, the pool of
-- workers, the Argo CD session, and the synchronisation of one resource.
pub mod Worker
pub mod Pool
pub mod Infra
pub mod Application
pub mod Session
pub mod Lister
pub mod Boot
pub mod Process
