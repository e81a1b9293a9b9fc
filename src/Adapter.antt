-- ===== src/Adapter.antt =====
-- internal/v2/adapter: the definitions by which objects of Kubernetes become resources.
pub mod Registry
pub mod Node
pub mod Object
pub mod Pod
pub mod Native
pub mod Describe
