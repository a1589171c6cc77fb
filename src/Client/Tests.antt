-- ===== src/Client/Tests.antt =====
-- A signed-in client, and the drafts of two users whose ids begin alike.
use notes_of_ashen.Base.{
  ℕ, Text, codes, decimal, [], none, some, true, false, ◌≡◌, refl, if◌then◌else◌, ◌==◌,
}
use notes_of_ashen.Storage.Map
use notes_of_ashen.Storage.Tests.{small, fresh}
use notes_of_ashen.Ui.{initial_ui}
use notes_of_ashen.Errors.Locale.{zh}
use notes_of_ashen.Client.{User, admin, active, Client}
use notes_of_ashen.Client.Drafts.{
  number, editor_draft_key, clear_editor_drafts_for_user, clear_editor_drafts-memory,
}

abbrev pub ann : User
ann = record {
  id = 12;
  account = codes "ann";
  email = codes "ann@example.org";
  avatar_url = [];
  nickname = codes "Ann";
  role = admin;
  status = active;
  created_at = codes "2026-01-01";
  updated_at = codes "2026-01-01";
}

abbrev pub signed_in : Client small ℕ
signed_in = record {
  storage = fresh;
  ui = initial_ui;
  auth = record {
    user = some ann;
    access_token = some (codes "old");
    is_fetching = false;
    is_initialized = true;
    on_session_expired = true;
  };
  session_expired_handled = false;
  handler_calls = 0;
  document_lang = some (codes "zh-CN");
  language = zh;
  world = 0;
}

abbrev key_of_twelve : Text
key_of_twelve = codes "article-editor:draft:user:12:7"

key_of_twelve_lem : editor_draft_key (number 7) (some 12) ≡ some key_of_twelve
unfolding editor_draft_key decimal
key_of_twelve_lem = refl

-- The drafts of user 1 are cleared, and a draft of user 12 stays.
clear_editor_drafts-memory_example :
    Map.get key_of_twelve (clear_editor_drafts_for_user small (some 1) fresh).memory
    ≡ (if 1 == 12 then none else Map.get key_of_twelve fresh.memory)
clear_editor_drafts-memory_example =
    clear_editor_drafts-memory small fresh 0 12 (number 7) key_of_twelve key_of_twelve_lem
