-- ===== src/Cache.antt =====
-- src/application/cache: the caches of order books and of clusters.
pub mod Books
pub mod Clusters
