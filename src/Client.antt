-- ===== src/Client.antt =====
-- pkg/client: the generated client of TaskGroups, its fake, its lister and its informers.
pub mod Factory
pub mod Options
pub mod Typed
pub mod Fake
pub mod Lister
pub mod Informer
pub mod Clientset
pub mod Dynamic
pub mod Injection
pub mod Group
