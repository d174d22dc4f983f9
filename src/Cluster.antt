-- ===== src/Cluster.antt =====
-- Languages/cpp/15_zookeeper_multi_thread_demo: the split of strings and the cluster manager.
pub mod Split
pub mod Parts
pub mod Manager
pub mod Trigger
pub mod Creation
pub mod Watcher
pub mod Life
