-- ===== src/Redirect/Tests.antt =====
-- A target with two slashes behind a dot.
use notes_of_ashen.Base.{Text, codes, [], ◌++◌, drop, Option, some, ◌≡◌, refl}
use notes_of_ashen.Json.{str}
use notes_of_ashen.Redirect.{Url, own_origin, resolve_auth_redirect}
use notes_of_ashen.Redirect.Slashes.{DropsDot, resolve_auth_redirect-slashes}

-- On the targets of the test.
abbrev parse_url : Text → Option Url
parse_url target =
    some (record {
      origin = own_origin;
      pathname = codes "//" ++ drop 4 target;
      search = [];
      hash = [];
    })

parse_url-DropsDot : DropsDot parse_url
parse_url-DropsDot host h = refl

resolve_auth_redirect-slashes_example :
    resolve_auth_redirect parse_url (str (codes "/.//evil.example")) ≡ codes "//evil.example"
resolve_auth_redirect-slashes_example =
    resolve_auth_redirect-slashes parse_url parse_url-DropsDot (codes "evil.example") refl
