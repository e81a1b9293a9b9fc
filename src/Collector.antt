-- ===== src/Collector.antt =====
-- internal/v2/collector: which resources of Kubernetes a collector watches, and the watches. What
-- the Kubernetes API answers is a parameter. Go's maps are lists of pairs, in the order of their
-- iteration; a set of names is a list.
pub mod Permissions
pub mod Wanted
pub mod Discovery
pub mod Normalize
pub mod Watch
pub mod Namespaces
pub mod ResyncFile
