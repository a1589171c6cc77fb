-- ===== src/Http/Tests.antt =====
-- Requests against small servers. The world counts the requests that were sent.
use notes_of_ashen.Base.{
  text_eq, ℕ, ◌+◌, codes, [], List, ◌∷◌, none, some, false, ◌≡◌, ◌≢◌, inr, refl, if◌then◌else◌,
  length,
}
use notes_of_ashen.Storage.Tests.{small}
use notes_of_ashen.Errors.{Thrown, app_error, plain_error, AppError, has_code, is_get}
use notes_of_ashen.Errors.Locale.{timeout_write, network}
use notes_of_ashen.Mojibake.Tests.{three_bytes}
use notes_of_ashen.Client.{Client, read_language}
use notes_of_ashen.Client.Tests.{signed_in}
use notes_of_ashen.Auth.{resolved}
use notes_of_ashen.Http.Requests.{Body, Config}
use notes_of_ashen.Http.Failures.{Failure}
use notes_of_ashen.Http.{
  Platform, Reply, failed, out_of_fuel, refused, send, on_request, finish_loading,
}
use notes_of_ashen.Http.Fuel.{NamesConfig, send_three}
use notes_of_ashen.Http.Loading.{KeepsLoading, loading-send}
use notes_of_ashen.Http.Expiry.{expire_each, expire_each-toasts, send_write_once}

-- Every request is lost; no session is renewed.
abbrev lost : Config → Failure
lost config = record {
  is_cancel = false;
  code = some (codes "ECONNABORTED");
  config = some config;
  response = none;
}

abbrev broken : Platform small ℕ
broken = record {
  dispatch = λ config c. (failed (lost config), record c { world = c.world + 1 });
  post_refresh =
      λ c. (resolved (record { status = 200; code = 1; message = none; access_token = none }), c);
  fresh_id = λ c. (codes "id", c);
  decode = three_bytes;
  parse_json = λ t. none;
  null_access = [];
}

abbrev save : Config
save = record {
  url = some (codes "/articles");
  method = some (codes "POST");
  is_blob = false;
  body = Body.value (codes "{}");
  headers = some (record { authorization = none; visitor_id = none });
  signal = false;
  timeout = none;
  retry = false;
  network_retry = false;
}

failure-eq :
    (e e' : Failure) (c c' : Client small ℕ)
    → ◌≡◌ {A = Reply × Client small ℕ} (failed e, c) (failed e', c')
    → e ≡ e'
failure-eq e e' c c' h = cc

broken-NamesConfig : NamesConfig broken
broken-NamesConfig = record {
  named = λ config c e c' q. inr (rw (← failure-eq (lost config) e _ c' q) refl);
}

broken-KeepsLoading : KeepsLoading broken
broken-KeepsLoading = record {
  dispatched = λ config c. refl;
  refreshed = λ c. refl;
  named = λ c. refl;
}

send_three_example :
    (send broken (3 + 4) save signed_in ≡ send broken 3 save signed_in)
    × ((send broken 3 save signed_in).0 ≢ out_of_fuel)
send_three_example = send_three broken broken-NamesConfig 4 save signed_in

loading-send_example :
    (send broken 3 save signed_in).1.ui.global_loading ≡ signed_in.ui.global_loading
loading-send_example = loading-send broken broken-KeepsLoading 3 save signed_in

abbrev two_errors : List Thrown
two_errors = plain_error (codes "a") ∷ plain_error (codes "b") ∷ []

expire_each-toasts_example :
    (expire_each broken two_errors signed_in).ui.toast_id ≡ 0 + length two_errors
expire_each-toasts_example = expire_each-toasts broken two_errors signed_in refl

save_is_write : is_get save.method ≡ false
unfolding is_get text_eq
save_is_write = refl

abbrev saved_once : Client small ℕ
saved_once = record (on_request broken save signed_in).1 {
  world = (on_request broken save signed_in).1.world + 1;
}

send_write_once_example :
    let (language, c1) = read_language (finish_loading broken saved_once) in
    (err : AppError) × (send broken 3 save signed_in ≡ (refused (app_error err), c1))
    × (err.source_message ≡ (
        if has_code (codes "ECONNABORTED") (some (codes "ECONNABORTED"))
        then timeout_write
        else network))
send_write_once_example =
    send_write_once broken 2 save signed_in saved_once (lost (on_request broken save signed_in).0)
      refl refl refl refl save_is_write
