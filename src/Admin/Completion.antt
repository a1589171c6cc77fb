-- ===== src/Admin/Completion.antt =====
-- frontend/src/pages/admin/articleAICompletionPolicy.ts: what the editor takes from an answer of the
-- AI, whose fields frontend/src/types/api.ts declares.
use notes_of_ashen.Base.{
  ℕ, Text, [], List, ◌∷◌, map, filter, take, length, trim, truthy, Option, none, some, get_or, Bool,
  true, false, not, ◌&&◌, ◌||◌, is_some, if◌then◌else◌,
}
use notes_of_ashen.Admin.AiSettings.{unique}

pub record AiAssistResp : Type 0 where
  pub title : Option Text
  pub slug : Option Text
  pub summary : Option Text
  pub seo_title : Option Text
  pub seo_description : Option Text
  pub seo_keywords : Option Text
  pub category_suggestion : Option Text
  pub tag_suggestions : Option (List Text)
  pub revised_content : Option Text
  pub suggestions : Option (List Text)

pub record ArticleCompletionFields : Type 0 where
  pub title : Text
  pub slug : Text
  pub summary : Text
  pub seo_title : Text
  pub seo_description : Text
  pub seo_keywords : Text

-- Partial<ArticleCompletionFields>
pub record CompletionPatch : Type 0 where
  pub title : Option Text
  pub slug : Option Text
  pub summary : Option Text
  pub seo_title : Option Text
  pub seo_description : Option Text
  pub seo_keywords : Option Text

pub record AiTaxonomySuggestions : Type 0 where
  pub category : Text
  pub tags : List Text

-- One round of the loop over `completionFields`.
unfoldable pub patch_field : Text → Option Text → Option Text
patch_field current none = none
patch_field current (some answer) =
    if not (truthy (trim current)) && truthy (trim answer) then some (trim answer) else none

abbrev pub fields_of : CompletionPatch → List (Option Text)
fields_of p = p.title ∷ p.slug ∷ p.summary ∷ p.seo_title ∷ p.seo_description ∷ p.seo_keywords ∷ []

-- buildArticleCompletionPatch: the patch, and how many fields it has.
unfoldable pub build_article_completion_patch :
    ArticleCompletionFields → AiAssistResp → CompletionPatch × ℕ
unfolding patch_field
build_article_completion_patch current response =
    let patch : CompletionPatch = record {
      title = patch_field current.title response.title;
      slug = patch_field current.slug response.slug;
      summary = patch_field current.summary response.summary;
      seo_title = patch_field current.seo_title response.seo_title;
      seo_description = patch_field current.seo_description response.seo_description;
      seo_keywords = patch_field current.seo_keywords response.seo_keywords;
    } in
    (patch, length (filter is_some (fields_of patch)))

-- [...new Set(tags.map(trim).filter(Boolean))].slice(0, 5)
unfoldable pub suggested_tags : List Text → List Text
unfolding unique
suggested_tags tags = take 5 (unique [] (filter truthy (map trim tags)))

abbrev pub has_tags : List Text → Bool
has_tags [] = false
has_tags (t ∷ ts) = true

unfoldable pub read_ai_taxonomy_suggestions : AiAssistResp → Option AiTaxonomySuggestions
unfolding suggested_tags
read_ai_taxonomy_suggestions response =
    let category = trim (get_or response.category_suggestion []) in
    let tags = suggested_tags (get_or response.tag_suggestions []) in
    if truthy category || has_tags tags
    then some (record { category = category; tags = tags })
    else none
