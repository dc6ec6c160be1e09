-- ===== src/Tests/Passkeys.antt =====
-- A passkey that is let in by a service and then by the set, and sealed credentials.
use chihaya.Base.{
  ◌≡◌, refl, Bool, true, false, ◌&&◌, ◌||◌, Bytes, bytes_eq, codes, List, [], ◌∷◌, none, some, pos,
  ok, err, if◌then◌else◌, arith,
}
use chihaya.Base.Dict.{lookup}
use chihaya.Bittorrent.Params.{by_name, param_string}
use chihaya.Middleware.{Context}
use chihaya.Middleware.Approval.{contains}
use chihaya.Middleware.Limits.{passkey_of}
use chihaya.Middleware.Passkeys.{
  Config, PasskeyHook, Sealing, Services, err_unapproved_passkey, identify, approve_passkey,
}
use chihaya.Middleware.Passkeys.Approved.{
  Laws, after_all, is_known, service_says, learns, approve_passkey-effect, approve_passkey-again,
}
use chihaya.Middleware.Passkeys.Base64.{decode_string}
use chihaya.Middleware.Passkeys.Requests.{api_url}
use chihaya.Middleware.Passkeys.Users.{passkey_of-identify}
use chihaya.Tests.{alice, bob, on_route, announce, response}

abbrev Sets : Type 0
Sets = Bytes → List Bytes

-- Every request is answered with yes.
abbrev services : Services Sets
services = record {
  sismember = λ s k m. ok (contains m (s k));
  sadd = λ s k m. ((λ j. if bytes_eq k j then m ∷ s j else s j), ok tt);
  expire = λ s k t. (s, ok tt);
  http_get = λ s url headers. (s, some (200, codes "yes"));
  read_valid = λ body. bytes_eq body (codes "yes");
}

added :
    (b : Bool) (m n : Bytes) (xs : List Bytes)
    → contains n (if b then m ∷ xs else xs) ≡ (if b && bytes_eq m n then true else contains n xs)
unfolding contains
added true m n xs = ground arith
added false m n xs = refl

abbrev laws : Laws services
laws = record {
  has = λ s k m. contains m (s k);
  sismember_has = λ s k m. refl;
  sadd_has = λ s k m j n. added (bytes_eq k j) m n (s j);
  expire_has = λ s k t j n. refl;
  http_get_has = λ s url headers j n. refl;
}

-- An opened text is the passkey, behind a nonce of two bytes.
abbrev sealing : Sealing
sealing = record {
  nonce_size = 2;
  open_sealed = λ key nonce text. some text;
  read_payload = λ text. some (record { passkey = text; timestamp = pos 0; fd = none; pd = none });
}

abbrev config : Config
config = record {
  redis_broker = codes "redis://localhost/0";
  set_key = codes "pt:passkeys";
  http_url = codes "http://site/check";
  http_timeout = pos 5_000_000_000;
  http_api_key_header = codes "X-API-Key";
  http_api_key = [];
  cache_ttl_seconds = pos 300;
  redis_read_timeout = pos 0;
  redis_write_timeout = pos 0;
  redis_connect_timeout = pos 0;
  encryption_key = [];
}

abbrev hook : PasskeyHook
hook = record { cfg = config; has_pool = true; key = none }

abbrev empty : Sets
empty = λ k. []

abbrev k1 : Bytes
k1 = codes "k1"

abbrev approved : Context
approved = record on_route {
  payload = some (record { passkey = k1; timestamp = pos 0; fd = none; pd = none });
}

identified : identify sealing hook on_route (announce 10 alice) ≡ ok (approved, k1)
unfolding identify by_name param_string lookup bytes_eq
identified = refl

identified_later : identify sealing hook on_route (announce 0 bob) ≡ ok (approved, k1)
unfolding identify by_name param_string lookup bytes_eq
identified_later = refl

approve_passkey-effect_example :
    let r = approve_passkey services sealing hook empty on_route (announce 10 alice) response in
    (r.1 ≡ (
      if is_known services laws hook empty k1 || service_says services laws hook empty k1
      then ok (approved, announce 10 alice, response)
      else err err_unapproved_passkey))
    × (contains k1 (r.0 (codes "pt:passkeys"))
        ≡ (if learns services laws hook empty k1 (codes "pt:passkeys") k1 then true else false))
unfolding contains
approve_passkey-effect_example =
    approve_passkey-effect services laws sealing hook empty on_route approved (announce 10 alice)
      response k1 (codes "pt:passkeys") k1 identified

let_in :
    (approve_passkey services sealing hook empty on_route (announce 10 alice) response).1
    ≡ ok (approved, announce 10 alice, response)
unfolding approve_passkey contains by_name param_string lookup bytes_eq
let_in = refl

approve_passkey-again_example :
    let s =
      after_all services laws sealing hook
        ((on_route, announce 10 bob, response) ∷ [])
        (approve_passkey services sealing hook empty on_route (announce 10 alice) response).0 in
    approve_passkey services sealing hook s on_route (announce 0 bob) response
    ≡ (s, ok (approved, announce 0 bob, response))
approve_passkey-again_example =
    approve_passkey-again services laws sealing hook empty
      ((on_route, announce 10 bob, response) ∷ []) on_route approved on_route approved
      (announce 10 alice) (announce 0 bob) response response k1 refl identified identified_later
      let_in

-- A sealed credential: "xx" and "k2".
abbrev sealed_hook : PasskeyHook
sealed_hook = record hook { key = some (codes "01234567890123456789012345678901") }

abbrev sealed_route : Context
sealed_route = record on_route { route_params = (codes "credential", codes "eHhrMg==") ∷ [] }

opened :
    identify sealing sealed_hook sealed_route (announce 10 alice)
    ≡ ok (
      record sealed_route {
        payload = some (record { passkey = codes "k2"; timestamp = pos 0; fd = none; pd = none });
      },
      codes "k2",
    )
unfolding identify by_name param_string lookup bytes_eq decode_string
opened = refl

passkey_of-identify_example : passkey_of approved (announce 0 bob) ≡ k1
passkey_of-identify_example =
    passkey_of-identify sealing hook on_route approved (announce 10 alice) (announce 0 bob) k1
      identified (omega arith)

hello : decode_string (codes "aGVsbG8_\n") ≡ some (codes "hello?")
unfolding decode_string
hello = refl

one_short : decode_string (codes "aGVsbG8") ≡ none
unfolding decode_string
one_short = refl

padded : decode_string (codes "aGVsbG8=") ≡ some (codes "hello")
unfolding decode_string
padded = refl

asked : api_url (codes "http://a/v?x=1") (codes "k 1/") ≡ codes "http://a/v?x=1&passkey=k+1%2F"
unfolding api_url
asked = refl
