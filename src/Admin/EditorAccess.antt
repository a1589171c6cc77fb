-- ===== src/Admin/EditorAccess.antt =====
-- frontend/src/pages/admin/editorAccessPolicy.ts: who may edit, by what has been loaded. A request is
-- a function on a state.
use notes_of_ashen.Base.{
  codes, Bool, true, false, not, ◌||◌, if◌then◌else◌, ◌≡◌, ◌⊎◌, refl, inl, inr,
}
use notes_of_ashen.Errors.{plain_error}
use notes_of_ashen.Auth.{Settled, rejected}

pub data ArticleBaselineStatus : Type 0 where
  loading error ready : ArticleBaselineStatus

pub data ArticleEditorAccess : Type 0 where
  editor_access loading_access error_access : ArticleEditorAccess

abbrev is_ready : ArticleBaselineStatus → Bool
is_ready ready = true
is_ready _ = false

abbrev is_error : ArticleBaselineStatus → Bool
is_error error = true
is_error _ = false

abbrev pub can_save_ai_settings : Bool → Bool
can_save_ai_settings has_loaded = has_loaded

unfoldable pub can_operate_article_editor : Bool → ArticleBaselineStatus → Bool
can_operate_article_editor is_existing status = not is_existing || is_ready status

unfoldable pub resolve_article_editor_access : Bool → ArticleBaselineStatus → ArticleEditorAccess
unfolding can_operate_article_editor
resolve_article_editor_access is_existing status =
    if can_operate_article_editor is_existing status
    then editor_access
    else if is_error status
    then error_access
    else loading_access

module _ {T S : Type 0} where
  unfoldable pub execute_ai_settings_update : Bool → (S → Settled T × S) → S → Settled T × S
  execute_ai_settings_update has_loaded request s =
      if can_save_ai_settings has_loaded
      then request s
      else (rejected (plain_error (codes "AI settings are not loaded yet")), s)

  unfoldable pub execute_article_editor_operation :
      Bool → ArticleBaselineStatus → (S → Settled T × S) → S → Settled T × S
  unfolding can_operate_article_editor
  execute_article_editor_operation is_existing status request s =
      if can_operate_article_editor is_existing status
      then request s
      else (rejected (plain_error (codes "Article baseline is not loaded yet")), s)

  -- An operation of the editor makes its request exactly for a new article and for one that is
  -- loaded, which is when the editor is shown. For an article that is still loading, or whose loading
  -- failed, it is rejected, nothing changes, and the page shows which of the two is the case.
  pub execute_article_editor_operation-access :
      (is_existing : Bool) (status : ArticleBaselineStatus) (request : S → Settled T × S) (s : S)
      → let r = execute_article_editor_operation is_existing status request s in
        let access = resolve_article_editor_access is_existing status in
        (((is_existing ≡ false) ⊎ (status ≡ ready)) × (access ≡ editor_access) × (r ≡ request s))
        ⊎ ((is_existing ≡ true)
            × (((status ≡ loading) × (access ≡ loading_access))
                ⊎ ((status ≡ error) × (access ≡ error_access)))
            × (r ≡ (rejected (plain_error (codes "Article baseline is not loaded yet")), s)))
  unfolding execute_article_editor_operation resolve_article_editor_access
      can_operate_article_editor
  execute_article_editor_operation-access false status request s = inl (inl refl, refl, refl)
  execute_article_editor_operation-access true loading request s =
      inr (refl, inl (refl, refl), refl)
  execute_article_editor_operation-access true error request s = inr (refl, inr (refl, refl), refl)
  execute_article_editor_operation-access true ready request s = inl (inr refl, refl, refl)
