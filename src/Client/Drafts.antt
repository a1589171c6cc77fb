-- ===== src/Client/Drafts.antt =====
-- frontend/src/utils/editorDraft.ts: the storage keys of article drafts. Ids of users and articles
-- that are numbers are natural numbers.
use notes_of_ashen.Base.{
  ◌==◌, Bool-cases, inl, inr, ℕ, zero, suc, ◌≤◌, Text, codes, or_text, decimal, decimal-injective,
  decimal-digits, starts_with, [], ◌∷◌, ◌++◌, Option, none, some, true, All, ◌≡◌, ◌≢◌, ap, sym, ◌∙◌,
  arith, starts_with-append, if◌then◌else◌, append_assoc, starts_with-delimited, starts_with_self,
}
use notes_of_ashen.Storage.{Backend, SafeStorage, remove_by_prefix}
use notes_of_ashen.Storage.Map
use notes_of_ashen.Storage.Prefix.{remove_by_prefix-memory}

-- string | number | false | undefined
pub data DraftId : Type 0 where
  text : Text → DraftId
  number : ℕ → DraftId
  absent : DraftId

-- `${id || 'new'}`
id_text : DraftId → Text
id_text (text s) = or_text s (codes "new")
id_text (number zero) = codes "new"
id_text (number (suc n)) = decimal (suc n)
id_text absent = codes "new"

abbrev editor_draft_prefix : Text
editor_draft_prefix = codes "article-editor:draft:user:"

-- `${editorDraftPrefix}${userId}:`
user_prefix : ℕ → Text
user_prefix user = editor_draft_prefix ++ (decimal user ++ b':' ∷ [])

-- No key without a user; a user id of 0 is none.
unfoldable pub editor_draft_key : DraftId → Option ℕ → Option Text
unfolding user_prefix id_text
editor_draft_key id none = none
editor_draft_key id (some zero) = none
editor_draft_key id (some (suc n)) = some (user_prefix (suc n) ++ id_text id)

unfoldable pub clear_editor_drafts_for_user :
    (b : Backend) → Option ℕ → SafeStorage b → SafeStorage b
unfolding user_prefix
clear_editor_drafts_for_user b none s = s
clear_editor_drafts_for_user b (some zero) s = s
clear_editor_drafts_for_user b (some (suc n)) s = remove_by_prefix b (user_prefix (suc n)) s

no_colon_from : (d : Text) → All (λ c. (48 ≤ c) × (c ≤ 57)) d → All (λ c. c ≢ b':') d
no_colon_from [] h = tt
no_colon_from (c ∷ d) h = (omega arith, no_colon_from d h.1)

no_colon : (n : ℕ) → All (λ c. c ≢ b':') (decimal n)
no_colon n = no_colon_from (decimal n) (decimal-digits n)

user_prefix-key :
    (u v : ℕ) (id : Text) → starts_with (user_prefix v ++ id) (user_prefix u) ≡ true → u ≡ v
unfolding user_prefix
user_prefix-key u v id h =
    let shape : (editor_draft_prefix ++ (decimal v ++ b':' ∷ [])) ++ id
        ≡ editor_draft_prefix ++ (decimal v ++ b':' ∷ id) =
      append_assoc editor_draft_prefix (decimal v ++ b':' ∷ []) id
      ∙ ap (λ t. editor_draft_prefix ++ t) (append_assoc (decimal v) (b':' ∷ []) id) in
    let same : starts_with (decimal v ++ b':' ∷ id) (decimal u ++ b':' ∷ []) ≡ true =
      sym (starts_with-append editor_draft_prefix (decimal v ++ b':' ∷ id) (decimal u ++ b':' ∷ []))
      ∙ (rw (← shape) h) in
    decimal-injective u v
      (starts_with-delimited b':' (decimal u) (decimal v) id (no_colon u) (no_colon v) same)

starts_with-user_prefix :
    (u v : ℕ) (id : Text) → starts_with (user_prefix v ++ id) (user_prefix u) ≡ (u == v)
starts_with-user_prefix u v id = elim (Bool-cases (u == v)) [
  | inl e ↦ let same : u ≡ v = ground arith in rw (e, same) (starts_with_self (user_prefix v) id)
  | inr e ↦ elim (Bool-cases (starts_with (user_prefix v ++ id) (user_prefix u))) [
    | inl h ↦ absurd (ground (arith, user_prefix-key u v id h))
    | inr h ↦ rw (e, h)
  ]
]

-- Clearing the drafts of a user takes each of that user's drafts out of memory, whatever the
-- browser's storage does, and no draft of another user, also where one id begins with the other.
pub clear_editor_drafts-memory :
    (b : Backend) (s : SafeStorage b) (u v : ℕ) (id : DraftId) (key : Text)
    → editor_draft_key id (some v) ≡ some key
    → Map.get key (clear_editor_drafts_for_user b (some (suc u)) s).memory
      ≡ (if suc u == v then none else Map.get key s.memory)
unfolding clear_editor_drafts_for_user editor_draft_key
clear_editor_drafts-memory b s u zero id key h = cc
clear_editor_drafts-memory b s u (suc v) id key h =
    let e : user_prefix (suc v) ++ id_text id ≡ key = cc in
    let mine : starts_with key (user_prefix (suc u)) ≡ (suc u == suc v) =
      rw (← e) (starts_with-user_prefix (suc u) (suc v) (id_text id)) in
    remove_by_prefix-memory b s (user_prefix (suc u)) key
    ∙ ap (λ t. if t then none else Map.get key s.memory) mine
