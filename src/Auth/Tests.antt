-- ===== src/Auth/Tests.antt =====
-- Fetches of the user and initialisations, against servers that answer or refuse.
use notes_of_ashen.Base.{
  ℕ, ◌+◌, codes, [], none, some, true, false, ◌≡◌, refl, if◌then◌else◌, ◌&&◌, ◌||◌, ◌==◌,
}
use notes_of_ashen.Storage.Tests.{small}
use notes_of_ashen.Errors.{Thrown, app_error}
use notes_of_ashen.Client.{Client, User, with_auth}
use notes_of_ashen.Client.Tests.{ann, signed_in}
use notes_of_ashen.Auth.{
  strict, Settled, resolved, rejected, RefreshResponse, fetch_user, initialize_auth,
  http_status_from_error, is_strict,
}
use notes_of_ashen.Auth.Laws.{fetch_user-refused, tasks_end}

abbrev forbidden : Thrown
forbidden = app_error (record { message = []; code = none; status = some 403; source_message = [] })

abbrev refusing : Client small ℕ → Settled User × Client small ℕ
refusing c = (rejected forbidden, record c { world = c.world + 1 })

abbrev expired : RefreshResponse
expired = record { status = 200; code = 40101; message = none; access_token = none }

abbrev no_refresh : Client small ℕ → Settled RefreshResponse × Client small ℕ
no_refresh c = (resolved expired, record c { world = c.world + 1 })

abbrev visitor : Client small ℕ
visitor =
    with_auth signed_in
      (record signed_in.auth { user = none; access_token = none; is_initialized = false })

fetch_user-refused_example :
    let r = fetch_user refusing strict signed_in in
    let refused =
      http_status_from_error forbidden == 401 || http_status_from_error forbidden == 403 in
    (r.1.auth.access_token ≡ (if refused then none else some (codes "old")))
    × (r.1.auth.user ≡ (if refused then none else some ann))
    × (r.1.handler_calls ≡ (if refused && true then 0 + 1 else 0))
    × (r.0 ≡ (if is_strict strict then rejected forbidden else resolved none))
fetch_user-refused_example =
    fetch_user-refused refusing strict signed_in
      (record signed_in { auth = record signed_in.auth { is_fetching = true }; world = 1 })
      forbidden refl refl

tasks_end_example :
    ((fetch_user refusing strict visitor).1.auth.is_initialized ≡ true)
    × ((fetch_user refusing strict visitor).1.auth.is_fetching ≡ false)
    × ((initialize_auth refusing no_refresh visitor).auth.is_initialized ≡ true)
tasks_end_example = tasks_end refusing no_refresh strict visitor
