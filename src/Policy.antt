-- ===== src/Policy.antt =====
-- Which sites may link to which: content-pool sources and domains.
pub mod Pool
mod Tests
