-- ===== src/Ordered.antt =====
-- Texts, dictionaries and sets as Python orders them.
pub mod Texts
pub mod Dict
pub mod Sets
