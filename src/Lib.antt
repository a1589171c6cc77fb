-- ===== src/Lib.antt =====
-- The browser client of Notes of Ashen (frontend/src): the state that its stores keep, the HTTP client
-- with its retries and the end of a session, and the utilities that these stand on.
--
-- Parts
--   Base       lists, texts and numbers. A JavaScript string is a list of its UTF-16 units (`Text`).
--   Storage    frontend/src/utils/storage.ts: createSafeStorage. `Backend` is the browser's Storage.
--   Ui         frontend/src/store/ui.ts: toasts and the count of requests under way.
--   Errors     frontend/src/utils/error.ts: translateMessage and toAppError, with the tables of
--              frontend/src/utils/aiErrorMessages.ts and the entries of frontend/src/i18n.ts it reads.
--   Json       frontend/src/utils/response.ts, over the values that a parsed body holds. An object may
--              have another as its prototype (`inherits`), which only the repair of texts brings about.
--   Mojibake   frontend/src/utils/mojibake.ts: texts decoded with the wrong character set.
--              Mojibake/Success is what the repair does to the success of a response body.
--   Client     the state that the modules share, and the actions of frontend/src/store/auth.ts that
--              wait for nothing; Client/Drafts is frontend/src/utils/editorDraft.ts.
--   Auth       frontend/src/store/authPolicy.ts, frontend/src/utils/refresh.ts, and fetchUser and
--              initializeAuth of frontend/src/store/auth.ts.
--   Settings   frontend/src/store/siteSettingsPolicy.ts and siteSettings.ts.
--   Preferences  frontend/src/store/preferences.ts, with themeStyles.ts beside it and
--              frontend/src/utils/color.ts. Its store is apart from `Client`, which has a language
--              of its own. The handlers of the media query are a list on the `Page`;
--              Preferences/Loaded is what holds after any events, Preferences/Late a change that is
--              missed, Preferences/Reload the next page.
--   Stream     frontend/src/utils/ragStream.ts: the events of a streamed answer.
--   Ask        frontend/src/pages/Ask.tsx, as handlers and answers in any order (`Step`), and
--              frontend/src/api/rag.ts, which requests and reads a streamed answer.
--   Translations  frontend/src/i18n.ts: both dictionaries, in parts (ZhA to ZhG, EnA to EnG), and the
--              functions on them.
--   Admin      frontend/src/pages/admin: backupPolicy.ts, aiSettingsPolicy.ts, editorAccessPolicy.ts,
--              articleAICompletionPolicy.ts.
--   Paging     buildPageList of frontend/src/components/Pagination.tsx, and (Paging/Collect)
--              frontend/src/utils/pagination.ts, which fetches all pages of a list.
--   Redirect   frontend/src/utils/authRedirect.ts.
--   Timeouts   frontend/src/utils/timeoutPolicy.ts.
--   Http       frontend/src/utils/http.ts: Http/Requests is what is read and written of a request,
--              Http/Failures what a failure leads to, Http the interceptors and the sending.
--              Http/Stringify and Http/Writes are the writes that are shared while under way.
--
-- The HTTP client changes the UI store (the count of requests, toasts), the auth store (a renewed
-- token, a sign-out) and the local storage (the visitor's id, drafts); the auth store clears drafts and
-- dispatches the event that resets the guard of the HTTP client; both make errors with Errors. `Client`
-- is the state that all of them pass on. Functions and fields have the names of the source, in snake
-- case; a helper by clauses stands for a nested branch of the function that its module names.
--
-- What is not under frontend/src is a parameter: the browser's storage, which may throw at each call
-- (`Backend`), axios, the server, random ids, TextDecoder and JSON.parse (`Platform`, `Parsers`,
-- `Decoder`). So is getContrastingTextColor of frontend/src/utils/color.ts, which computes in floating
-- point. A request is a function on the client's state, and what other tasks do meanwhile is part of
-- its effect. What is asked of a parameter is a hypothesis of the theorem that needs it.
--
-- Bounds. `send` runs on fuel, one unit for each request that is sent, and three are enough.
-- `collect` runs on fuel, one unit for each test of its condition: one more than the list is long is
-- enough for a server that answers its pages. The split of a stream runs on the length of the text,
-- which has fewer breaks than units. All other recursion is structural: the loop of decodeRepeatedly has
-- the three rounds that the source gives it.
-- Numbers (status codes, durations, ids) are natural numbers, and no code that is modelled wraps them.
--
-- Not modelled: rendering (React components, most pages, styles), the wrappers of frontend/src/api, each
-- a call of the HTTP client with a path, the sharing of one refresh among requests that wait for it
-- (frontend/src/utils/http.ts), the tree of the archive, hooks that are bound to React, the utilities on
-- Markdown, covers and search engines, and the server, a program of its own.

pub mod Base
pub mod Storage
pub mod Ui
pub mod Errors
pub mod Json
pub mod Mojibake
pub mod Client
pub mod Auth
pub mod Timeouts
pub mod Http
pub mod Settings
pub mod Preferences
pub mod Admin
pub mod Stream
pub mod Paging
pub mod Ask
pub mod Translations
pub mod Redirect
