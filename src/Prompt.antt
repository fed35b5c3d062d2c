-- ===== src/Prompt.antt =====
-- The package prompt: prompts put together from sections.
pub mod Builder
mod Tests
