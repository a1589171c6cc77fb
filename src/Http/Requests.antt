-- ===== src/Http/Requests.antt =====
-- frontend/src/utils/http.ts: request configurations and the tests on them. Of `AxiosRequestConfig`
-- the fields that the client reads, with its own `_retry` and `_networkRetry`; of the headers,
-- `Authorization` and `X-Visitor-Id`.
use notes_of_ashen.Base.{
  ℕ, zero, suc, Text, codes, includes, [], ◌∷◌, ◌++◌, Option, none, some, Bool, true, false, not,
  ◌||◌, ◌&&◌,
}
use notes_of_ashen.Errors.{is_get}
use notes_of_ashen.Timeouts.{resolve_default_timeout}

-- `data`: undefined, null, a `FormData`, a string, or a value that is written as JSON.
pub data Body : Type 0 where
  undefined null form_data : Body
  text value : Text → Body

pub record Headers : Type 0 where
  pub authorization : Option Text
  pub visitor_id : Option Text

pub record Config : Type 0 where
  pub url : Option Text
  pub method : Option Text
  pub is_blob : Bool
  pub body : Body
  pub headers : Option Headers
  pub signal : Bool
  pub timeout : Option ℕ
  pub retry : Bool
  pub network_retry : Bool

-- url?.includes(part)
unfoldable pub url_includes : Text → Option Text → Bool
url_includes part none = false
url_includes part (some url) = includes url part

unfoldable pub is_auth_retry_endpoint : Option Text → Bool
unfolding url_includes
is_auth_retry_endpoint url =
    url_includes (codes "/auth/login") url
    || url_includes (codes "/auth/register") url
    || url_includes (codes "/auth/refresh") url
    || url_includes (codes "/auth/logout") url

-- typeof config.data === 'undefined'
abbrev is_undefined : Body → Bool
is_undefined undefined = true
is_undefined _ = false

unfoldable pub should_network_retry : Config → Bool
unfolding url_includes
should_network_retry config =
    is_get config.method
    && not config.is_blob
    && not (url_includes (codes "/ai/") config.url)
    && is_undefined config.body

-- `Bearer ${token}`
abbrev pub bearer : Text → Text
bearer token = codes "Bearer " ++ token

abbrev pub no_headers : Headers
no_headers = record { authorization = none; visitor_id = none }

-- config.headers = config.headers ?? {}; config.headers.Authorization = `Bearer ${token}`
unfoldable pub authorize : Text → Config → Config
authorize token config = elim config.headers [
  | none ↦ record config {
    headers = some (record no_headers { authorization = some (bearer token) });
  }
  | some h ↦ record config { headers = some (record h { authorization = some (bearer token) }) }
]

abbrev when_token : Option Text → Headers → Headers
when_token none h = h
when_token (some []) h = h
when_token (some (c ∷ s)) h = record h { authorization = some (bearer (c ∷ s)) }

abbrev when_visitor : Text → Headers → Headers
when_visitor [] h = h
when_visitor (c ∷ s) h = record h { visitor_id = some (c ∷ s) }

-- The request interceptor's writes to the configuration: a header that has nothing to say is left
-- alone, and so are missing headers; a time limit that is absent or 0 becomes the default.
unfoldable pub prepare : Option Text → Text → Config → Config
prepare token visitor config =
    let headers : Option Headers = elim config.headers [
      | none ↦ none
      | some h ↦ some (when_visitor visitor (when_token token h))
    ] in
    let limit = resolve_default_timeout config.url config.method in
    let timeout : Option ℕ = elim config.timeout [
      | none ↦ some limit
      | some t ↦ elim t [ zero ↦ some limit | suc n ↦ some (suc n) ]
    ] in
    record config { headers = headers; timeout = timeout }

-- originalRequest.headers?.Authorization
abbrev pub sent_authorization : Config → Option Text
sent_authorization config = elim config.headers [ none ↦ none | some h ↦ h.authorization ]
