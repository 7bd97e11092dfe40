-- ===== src/Teamly.antt =====
-- The pure library of the knowledge base with courses, teamly/src/lib.
pub mod Rbac
pub mod Slug
pub mod Grade
pub mod Progress
pub mod Tiptap
pub mod Chunk
pub mod Enrollment
pub mod Pages
