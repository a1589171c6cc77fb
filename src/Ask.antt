-- ===== src/Ask.antt =====
-- frontend/src/pages/Ask.tsx and frontend/src/api/rag.ts: the page that asks the site's assistant.
pub mod Messages
pub mod State
pub mod Page
pub mod Streams
pub mod Sound
pub mod Steps
pub mod Consistent
pub mod Over
pub mod Privacy
pub mod Stuck
pub mod Request
pub mod Completion
pub mod SignOut
mod Tests
