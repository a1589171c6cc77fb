-- ===== src/Admin.antt =====
-- The rules of the administration's pages that are kept apart from their rendering: backups, the
-- settings of the AI provider, and the access to the article editor.
pub mod Backup
pub mod AiSettings
pub mod Models
pub mod EditorAccess
pub mod Completion
pub mod Suggestions
mod Tests
mod CompletionTests
