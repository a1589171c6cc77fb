-- ===== src/Http/Keys.antt =====
-- Which requests have the same key.
use mathlib.Core.Option.{some-injective, none-ne-some}
use notes_of_ashen.Base.{
  Text, map, [], List, ◌∷◌, Option, none, some, Bool, true, false, ◌≡◌, refl, sym, ◌∙◌, ap, arith,
  if◌then◌else◌,
}
use notes_of_ashen.Errors.{method_name, is_get}
use notes_of_ashen.Http.Requests.{Config}
use notes_of_ashen.Http.Stringify.{Printer}
use notes_of_ashen.Http.Writes.{
  Addressing, upper, is_alone, body_text, parts_with, stringified, dedupe_key,
  get_authorization_header,
}

cons_parts : {x y : Text} {xs ys : List Text} → x ∷ xs ≡ y ∷ ys → (x ≡ y) × (xs ≡ ys)
cons_parts e = ground arith

-- The requests are the same write of the same session.
pub record IsSameWrite (p : Printer) (a : Addressing) (c d : Config) : Type 0 where
  pub method : map upper (method_name c.method) ≡ map upper (method_name d.method)
  pub uri : a.get_uri c ≡ a.get_uri d
  pub body : body_text p a c.body ≡ body_text p a d.body
  pub authorization : get_authorization_header c ≡ get_authorization_header d
  pub is_write : is_get c.method ≡ false
  pub is_first_try : c.retry ≡ false
  pub is_first_send : c.network_retry ≡ false

module _ (p : Printer) (a : Addressing) where
  -- What a key is made from.
  record KeyOf (c : Config) (k : Text) : Type 0 where
    pub written : Text
    pub address : Text
    pub body_is : body_text p a c.body ≡ some written
    pub uri_is : a.get_uri c ≡ some address
    pub key_is :
        k
        ≡ p.stringify_list
            (map upper (method_name c.method) ∷ address ∷ written ∷ get_authorization_header c ∷ [])
    pub shared : is_alone c ≡ false

  key_of : (c : Config) (k : Text) → dedupe_key p a c ≡ some k → KeyOf c k
  unfolding dedupe_key
  key_of c k h = go (is_alone c) (body_text p a c.body) (a.get_uri c) refl refl refl h
    where
      go :
          (alone : Bool) (b u : Option Text)
          → is_alone c ≡ alone
          → body_text p a c.body ≡ b
          → a.get_uri c ≡ u
          → (if alone then none else stringified p a (parts_with p a c b u)) ≡ some k
          → KeyOf c k
      go true b u e f g h = elim (none-ne-some _ h) [ ]
      go false none u e f g h = elim (none-ne-some _ h) [ ]
      go false (some w) none e f g h = elim (none-ne-some _ h) [ ]
      go false (some w) (some v) e f g h = record {
        written = w;
        address = v;
        body_is = f;
        uri_is = g;
        key_is = sym (some-injective _ _ h);
        shared = e;
      }

  write_parts :
      (c : Config)
      → is_alone c ≡ false
      → (is_get c.method ≡ false) × (c.retry ≡ false) × (c.network_retry ≡ false)
  unfolding is_alone
  write_parts c h = ground arith

  -- Where JSON.stringify tells lists of texts apart, two requests have one key only if they are the
  -- same write, to the same address, with the same text of a body and the same authorization; neither
  -- is a read or is sent again after a failure.
  pub dedupe_key-IsSameWrite :
      ((xs ys : List Text) → p.stringify_list xs ≡ p.stringify_list ys → xs ≡ ys)
      → (c d : Config) (k : Text) → dedupe_key p a c ≡ some k
      → dedupe_key p a d ≡ some k
      → IsSameWrite p a c d
  dedupe_key-IsSameWrite tells c d k h h' =
      let x = key_of c k h in
      let y = key_of d k h' in
      let (write, first, once) = write_parts c x.shared in
      let e = tells _ _ (sym x.key_is ∙ y.key_is) in
      let (e0, t0) = cons_parts e in
      let (e1, t1) = cons_parts t0 in
      let (e2, t2) = cons_parts t1 in
      let (e3, t3) = cons_parts t2 in
      record {
        method = e0;
        uri = x.uri_is ∙ ap some e1 ∙ sym y.uri_is;
        body = x.body_is ∙ ap some e2 ∙ sym y.body_is;
        authorization = e3;
        is_write = write;
        is_first_try = first;
        is_first_send = once;
      }
