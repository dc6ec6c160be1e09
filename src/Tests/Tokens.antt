-- ===== src/Tests/Tokens.antt =====
-- Alice's announce with a token that is signed with the key of the last set.
use chihaya.Base.{
  ℕ, ◌==◌, ◌≡◌, ◌⊎◌, refl, true, false, Bytes, bytes_eq, codes, List, [], ◌∷◌, ◌++◌, none, some,
  pos, ok, format_hex, if◌then◌else◌,
}
use chihaya.Base.Dict.{lookup, insert}
use chihaya.Bittorrent.{AnnounceRequest}
use chihaya.Bittorrent.Params.{param_string}
use chihaya.Middleware.Tokens.{
  Config, Token, Jose, Jwk, TokenHook, fetched_keys, refresh, approve_token, is_required,
  approve_optional,
}
use chihaya.Middleware.Tokens.Checks.{HasToken, approve_optional-HasToken}
use chihaya.Middleware.Tokens.Rotation.{IsListed, approve_token-rotated}
use chihaya.Tests.{alice, context, announce, response, info_hash}

abbrev config : Config
config = record {
  issuer = codes "site";
  audience = codes "tracker";
  jwk_set_url = codes "http://site/keys";
  jwk_update_interval = pos 300_000_000_000;
  require_for_seeder = true;
  require_for_leecher = false;
}

abbrev token : Token
token = record {
  issuer = some (codes "site");
  audience = some (codes "web" ∷ codes "tracker" ∷ []);
  infohash = some (format_hex info_hash);
  kid = some (codes "new");
}

-- Keys are numbers, and the key 7 has signed the one token that there is.
abbrev jose : Jose ℕ
jose = record {
  parse_jwt = λ text. if bytes_eq text (codes "t1") then some token else none;
  verify = λ text key. key == 7;
}

abbrev hook : TokenHook ℕ
hook = record { cfg = config; public_keys = (codes "old", 3) ∷ [] }

abbrev with_token : AnnounceRequest
with_token = record (announce 10 alice) {
  params = record {
    path = [];
    query = [];
    params = (codes "jwt", codes "t1") ∷ [];
    info_hashes = [];
  };
}

approve_optional-HasToken_example :
    ((approve_optional jose {S = ℕ} hook 0 context with_token response
        ≡ (0, ok (context, with_token, response)))
      → (is_required config with_token ≡ false) ⊎ HasToken jose hook with_token)
    × ((is_required config with_token ≡ false) ⊎ HasToken jose hook with_token
        → approve_optional jose {S = ℕ} hook 0 context with_token response
          ≡ (0, ok (context, with_token, response)))
approve_optional-HasToken_example =
    approve_optional-HasToken jose {S = ℕ} hook 0 context with_token response

abbrev new_set : List (Jwk ℕ)
new_set = (codes "new", some 7) ∷ (codes "next", some 8) ∷ []

abbrev refreshed : TokenHook ℕ
refreshed = refresh hook ([] ++ some new_set ∷ none ∷ [])

fetched : fetched_keys {K = ℕ} (some new_set) ≡ some ((codes "new", 7) ∷ (codes "next", 8) ∷ [])
unfolding fetched_keys insert bytes_eq
fetched = refl

let_in :
    approve_token jose {S = ℕ} refreshed 0 context with_token response
    ≡ (0, ok (context, with_token, response))
unfolding approve_token refresh insert bytes_eq lookup param_string format_hex
let_in = refl

approve_token-rotated_example :
    (refreshed.public_keys ≡ (codes "new", 7) ∷ (codes "next", 8) ∷ [])
    × ((text : Bytes) × (t : Token) × (kid : Bytes) × (key : ℕ) × (param_string with_token.params
            (codes "jwt")
          ≡ some text)
        × (jose.parse_jwt text ≡ some t)
        × (t.kid ≡ some kid)
        × (jose.verify text key ≡ true)
        × IsListed kid key new_set)
approve_token-rotated_example =
    approve_token-rotated {S = ℕ} jose hook [] (none ∷ []) new_set
      ((codes "new", 7) ∷ (codes "next", 8) ∷ []) 0 context with_token response fetched
      (unfold fetched_keys in refl, tt) let_in

-- A leecher needs no token, and a seeder does.
leecher_passes : is_required config (announce 10 alice) ≡ false
unfolding is_required
leecher_passes = refl

seeder_needs_one : is_required config (announce 0 alice) ≡ true
unfolding is_required
seeder_needs_one = refl
