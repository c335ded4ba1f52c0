-- ===== src/Narrative.antt =====
-- The narrative answers of app/narrative: citation markers, their validation, and the retry loop.
pub mod Text
pub mod Citation
pub mod Sentences
pub mod Validator
pub mod Judge
pub mod Renderer
pub mod Evidence
pub mod Query
pub mod Smalltalk
