-- ===== src/Admin/Suggestions.antt =====
-- What the editor takes from an answer of the AI.
use mathlib.Core.Option.{some-injective, none-ne-some}
use notes_of_ashen.Base.{
  ℕ, zero, suc, ◌≤◌, Text, [], List, ◌∷◌, map, filter, take, length, length-take, All, trim,
  trim-trim, truthy, text_eq, Option, none, some, get_or, Bool, true, false, not, ◌||◌, ◌==◌, ◌≡◌,
  ◌⊎◌, refl, subst, arith, Bool-cases, inl, inr, if◌then◌else◌,
}
use notes_of_ashen.Admin.AiSettings.{unique}
use notes_of_ashen.Admin.Models.{Distinct, unique-Distinct, filter-truthy}
use notes_of_ashen.Admin.Completion.{
  AiAssistResp, ArticleCompletionFields, CompletionPatch, AiTaxonomySuggestions, patch_field,
  build_article_completion_patch, has_tags, suggested_tags, read_ai_taxonomy_suggestions,
}

All-take : {A : Type 0} (P : A → Type 0) (n : ℕ) (xs : List A) → All P xs → All P (take n xs)
All-take P zero xs h = tt
All-take P (suc n) [] h = tt
All-take P (suc n) (x ∷ xs) h = (h.0, All-take P n xs h.1)

Distinct-take : (n : ℕ) (ts : List Text) → Distinct ts → Distinct (take n ts)
unfolding Distinct
Distinct-take zero ts h = tt
Distinct-take (suc n) [] h = tt
Distinct-take (suc n) (t ∷ ts) h =
    (All-take (λ s. text_eq s t ≡ false) n ts h.0, Distinct-take n ts h.1)

-- At most five tags, which differ, and none is empty.
pub AreOffered : List Text → Type 0
AreOffered ts = (length ts ≤ 5) × Distinct ts × All (λ s. truthy s ≡ true) ts

suggested_tags-AreOffered : (tags : List Text) → AreOffered (suggested_tags tags)
unfolding AreOffered suggested_tags Distinct
suggested_tags-AreOffered tags =
    let ts = unique [] (filter truthy (map trim tags)) in
    let h =
      unique-Distinct [] (filter truthy (map trim tags)) tt tt (filter-truthy (map trim tags)) in
    (
      omega (arith, length-take 5 ts),
      Distinct-take 5 ts h.0,
      All-take (λ s. truthy s ≡ true) 5 ts h.1,
    )

tags_given :
    (c : Bool) (ts : List Text) → (c || has_tags ts) ≡ true → (c || not (length ts == 0)) ≡ true
tags_given c [] h = h
tags_given c (t ∷ ts) h = ground arith

read_tags :
    (given : Bool) (category : Text) (tags : List Text) (t : AiTaxonomySuggestions)
    → (truthy category || has_tags tags) ≡ given
    → AreOffered tags
    → (if given then some (record { category = category; tags = tags }) else none) ≡ some t
    → AreOffered t.tags × ((truthy t.category || not (length t.tags == 0)) ≡ true)
read_tags true category tags t k h e =
    subst (λ u. AreOffered u.tags × ((truthy u.category || not (length u.tags == 0)) ≡ true))
      (some-injective (record { category = category; tags = tags }) t e)
      (h, tags_given (truthy category) tags k)
read_tags false category tags t k h e = elim (none-ne-some t e) [ ]

-- Whatever the AI answers, the tags that are suggested are five at most, differ from each other, and
-- none is empty; and a suggestion has a category or a tag.
pub read_ai_taxonomy_suggestions-AreOffered :
    (r : AiAssistResp) (t : AiTaxonomySuggestions)
    → read_ai_taxonomy_suggestions r ≡ some t
    → AreOffered t.tags × ((truthy t.category || not (length t.tags == 0)) ≡ true)
unfolding read_ai_taxonomy_suggestions
read_ai_taxonomy_suggestions-AreOffered r t h =
    read_tags _ (trim (get_or r.category_suggestion []))
      (suggested_tags (get_or r.tag_suggestions [])) t refl
      (suggested_tags-AreOffered (get_or r.tag_suggestions [])) h

abbrev answer_text : Option Text → Text
answer_text none = []
answer_text (some a) = trim a

-- What is put into a field, where something is: the field is blank, and the new text is the answer
-- without surrounding blanks, which is not blank itself. Where nothing is put, the field has a text or
-- the answer is blank or missing.
pub IsFilled : Text → Option Text → Option Text → Type 0
IsFilled current answer (some new) =
    (truthy (trim current) ≡ false) × (truthy (trim new) ≡ true) × (answer_text answer ≡ new)
IsFilled current answer none =
    (truthy (trim current) ≡ true) ⊎ (truthy (answer_text answer) ≡ false)

patch_field-IsFilled : (c : Text) (a : Option Text) → IsFilled c a (patch_field c a)
unfolding patch_field IsFilled
patch_field-IsFilled c none = inr refl
patch_field-IsFilled c (some a) = elim (Bool-cases (truthy (trim c))) [
  | inl e ↦ rw e (inl e)
  | inr e ↦ elim (Bool-cases (truthy (trim a))) [
    | inl f ↦ rw (e, f) (e, rw (trim-trim a) f, refl)
    | inr f ↦ rw (e, f) (inr f)
  ]
]

pub FillsFields : ArticleCompletionFields → AiAssistResp → CompletionPatch → Type 0
FillsFields f r p =
    IsFilled f.title r.title p.title
    × IsFilled f.slug r.slug p.slug
    × IsFilled f.summary r.summary p.summary
    × IsFilled f.seo_title r.seo_title p.seo_title
    × IsFilled f.seo_description r.seo_description p.seo_description
    × IsFilled f.seo_keywords r.seo_keywords p.seo_keywords

-- Whatever the AI answers, the patch fills exactly the fields that are blank and for which there is
-- an answer that is not: with that answer, less surrounding blanks, which is never a blank text.
pub build_article_completion_patch-FillsFields :
    (f : ArticleCompletionFields) (r : AiAssistResp)
    → FillsFields f r (build_article_completion_patch f r).0
unfolding build_article_completion_patch FillsFields
build_article_completion_patch-FillsFields f r = (
  patch_field-IsFilled f.title r.title,
  patch_field-IsFilled f.slug r.slug,
  patch_field-IsFilled f.summary r.summary,
  patch_field-IsFilled f.seo_title r.seo_title,
  patch_field-IsFilled f.seo_description r.seo_description,
  patch_field-IsFilled f.seo_keywords r.seo_keywords,
)
