-- ===== src/Preferences/Tests.antt =====
-- A visitor's page, its preferences changed and loaded again.
use notes_of_ashen.Base.{
  trim, decimal, Text, codes, text_eq, List, [], ◌∷◌, none, some, true, false, ◌≡◌, ◌≢◌, ◌⊎◌, refl,
}
use notes_of_ashen.Storage.Map
use notes_of_ashen.Storage.{get_item, set_item}
use notes_of_ashen.Storage.Tests.{small, small-IsFaithful, fresh}
use notes_of_ashen.Preferences.{
  Page, load_preferences, show_preferences, read_stored, initialize_preferences, notify,
  sync_system_theme, set_accent_color, resolve_effective_theme, get_system_theme, with_system,
}
use notes_of_ashen.Preferences.Color.{hex_to_rgba, is_hex_color}
use notes_of_ashen.Preferences.Display.{system, Document, preference_from}
use notes_of_ashen.Preferences.Current.{IsCurrent}
use notes_of_ashen.Preferences.Laws.{
  Mounts, mounts_after, PreferenceEvent, mounted, accent_set, system_changed, ShowsStore, step,
  steps, is_heard, all_heard,
}
use notes_of_ashen.Preferences.Loaded.{steps-load_preferences}
use notes_of_ashen.Preferences.Late.{steps-late}
use notes_of_ashen.Preferences.Reload.{
  Choice, accent_chosen, chosen, choose, reopened, IsPersisted, load_preferences-choose,
}

tables : Unit {0}
unfolding load_preferences show_preferences read_stored initialize_preferences notify
    sync_system_theme set_accent_color resolve_effective_theme get_system_theme with_system
    preference_from get_item set_item Map.get Map.set Map.delete text_eq trim is_hex_color step
    steps is_heard mounts_after all_heard choose
tables = tt

abbrev blank : Document
blank = record {
  lang = [];
  theme = none;
  color_scheme = none;
  style = none;
  ochre = none;
  on_accent = none;
  inline_code_bg = none;
  code_ochre = none;
  theme_color = some [];
}

abbrev page : Page small
page = record {
  storage = fresh;
  document = blank;
  prefers_dark = true;
  listeners = [];
  next_listener = 0;
}

abbrev cream : Text → Text
cream accent = codes "#faf9f5"

translucent : hex_to_rgba (codes " #0aF010") (codes "0.08") ≡ codes "rgba(10, 240, 16, 0.08)"
unfolding hex_to_rgba trim decimal
translucent = refl

abbrev events : List PreferenceEvent
events = mounted ∷ accent_set (codes "#0af010") ∷ system_changed false ∷ []

abbrev none_mounted : Mounts
none_mounted = record { active = []; next = 0 }

steps-load_preferences_example :
    let s = load_preferences cream (some page) in
    ShowsStore cream (steps cream events s)
    × ((all_heard cream events none_mounted s ≡ false) ⊎ IsCurrent cream (steps cream events s))
steps-load_preferences_example = steps-load_preferences cream events page

events_heard : all_heard cream events none_mounted (load_preferences cream (some page)) ≡ true
unfolding tables
events_heard = refl

no_preference : (load_preferences cream (some page)).0.theme_preference ≡ system
unfolding tables
no_preference = refl

system_turns : get_system_theme (some page) ≢ get_system_theme (with_system false (some page))
unfolding tables
system_turns = cc

steps-late_example : ¬ (
    IsCurrent cream
      (steps cream (system_changed false ∷ mounted ∷ []) (load_preferences cream (some page))))
steps-late_example = steps-late cream page false refl no_preference system_turns

abbrev green : Choice
green = accent_chosen (codes "0af010")

green-IsPersisted :
    IsPersisted (choose cream green ((load_preferences cream (some page)).0, some page)).1
unfolding tables
green-IsPersisted = (refl, (refl, (λ k. cc)))

load_preferences-choose_example :
    let after = choose cream green ((load_preferences cream (some page)).0, some page) in
    chosen green (load_preferences cream (reopened blank false after.1)).0 ≡ chosen green after.0
load_preferences-choose_example =
    load_preferences-choose small-IsFaithful cream green (load_preferences cream (some page)).0 page
      blank false refl green-IsPersisted
