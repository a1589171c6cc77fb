-- ===== src/Admin/CompletionTests.antt =====
-- An answer with a title and six tags, two of them alike.
use notes_of_ashen.Base.{
  codes, [], ◌∷◌, length, trim, truthy, text_eq, none, some, true, not, ◌==◌, ◌||◌, ◌≡◌, refl,
}
use notes_of_ashen.Admin.AiSettings.{unique}
use notes_of_ashen.Admin.Completion.{
  AiAssistResp, ArticleCompletionFields, AiTaxonomySuggestions, build_article_completion_patch,
  suggested_tags, read_ai_taxonomy_suggestions,
}
use notes_of_ashen.Admin.Suggestions.{
  AreOffered, FillsFields, read_ai_taxonomy_suggestions-AreOffered,
  build_article_completion_patch-FillsFields,
}

abbrev answer : AiAssistResp
answer = record {
  title = some (codes " Notes ");
  slug = none;
  summary = some (codes "other");
  seo_title = none;
  seo_description = some [];
  seo_keywords = none;
  category_suggestion = none;
  tag_suggestions = some (
      codes "a" ∷ codes " a" ∷ codes "b" ∷ codes "c" ∷ [] ∷ codes "d" ∷ codes "e" ∷ codes "f" ∷ []);
  revised_content = none;
  suggestions = none;
}

abbrev suggested : AiTaxonomySuggestions
suggested = record {
  category = [];
  tags = codes "a" ∷ codes "b" ∷ codes "c" ∷ codes "d" ∷ codes "e" ∷ [];
}

suggested_lem : read_ai_taxonomy_suggestions answer ≡ some suggested
unfolding read_ai_taxonomy_suggestions suggested_tags unique trim text_eq
suggested_lem = refl

read_ai_taxonomy_suggestions-AreOffered_example :
    AreOffered suggested.tags
    × ((truthy suggested.category || not (length suggested.tags == 0)) ≡ true)
read_ai_taxonomy_suggestions-AreOffered_example =
    read_ai_taxonomy_suggestions-AreOffered answer suggested suggested_lem

abbrev written : ArticleCompletionFields
written = record {
  title = [];
  slug = codes "notes";
  summary = codes "mine";
  seo_title = [];
  seo_description = [];
  seo_keywords = [];
}

build_article_completion_patch-FillsFields_example :
    FillsFields written answer (build_article_completion_patch written answer).0
build_article_completion_patch-FillsFields_example =
    build_article_completion_patch-FillsFields written answer
