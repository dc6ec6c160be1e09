-- ===== src/Http/Parser/Announces.antt =====
-- What an announce holds that an HTTP request gives (frontend/http/parser.go).
use Prim.Native.String.{String}
use chihaya.Base.{
  ℕ, ◌≤◌, ◌⊎◌, subst, ◌==◌, ◌^◌, ◌<◌, ◌≡◌, ◌≢◌, refl, ap, sym, ◌∙◌, min, Bool, true, false, Bytes,
  codes, length, List, [], ◌∷◌, Option, none, some, is_some, Result, ok, err, guard, >>=-eq-ok,
  ok-injective, if◌then◌else◌, Bool-cases, inl, inr, arith, parse_uint, read_digits, in_bits,
}
use chihaya.Bittorrent.{AnnounceRequest, QueryParams, peer_id_from_string}
use chihaya.Bittorrent.Params.{parse_url_data, param_string, param_uint, uint_value, parsed_uint}
use chihaya.Bittorrent.Sanitize.Bounds.{IsCanonical, sanitize_announce-ok}
use chihaya.Http.{ParseOptions, Request, Net}
use chihaya.Http.Parser.{
  failed, or_client_error, only_hash, parse_peer_id, parse_num_want, requested_ip, parse_event,
  parse_announce,
}

in_bits-lt : (o : Option ℕ) (bits n : ℕ) → in_bits o bits ≡ some n → n < 2 ^ bits
unfolding in_bits
in_bits-lt none bits n h = cc
in_bits-lt (some m) bits n h = ground arith

parse_uint-lt : (s : Bytes) (bits n : ℕ) → parse_uint s bits ≡ some n → n < 2 ^ bits
parse_uint-lt [] bits n h = unfold parse_uint in cc
parse_uint-lt (c ∷ s) bits n h = in_bits-lt (read_digits 0 (c ∷ s)) bits n (unfold parse_uint in h)

only_hash-eq-ok : (hs : List Bytes) {h : Bytes} → only_hash hs ≡ ok h → hs ≡ h ∷ []
unfolding only_hash
only_hash-eq-ok [] e = cc
only_hash-eq-ok (h ∷ []) e = ap (λ x. x ∷ []) (ok-injective e)
only_hash-eq-ok (h ∷ i ∷ hs) e = cc

length-peer_id : (o : Option Bytes) {id : Bytes} → parse_peer_id o ≡ ok id → length id ≡ 20
unfolding parse_peer_id peer_id_from_string
length-peer_id none e = cc
length-peer_id (some s) e = elim (Bool-cases (length s == 20)) [
  | inl h ↦ ground (arith, e)
  | inr h ↦ absurd (ground arith)
]

or_client_error-eq-ok :
    {A : Type 0} (r : Result A) (m : String) {a : A} → or_client_error r m ≡ ok a → r ≡ ok a
or_client_error-eq-ok (ok a) m e = e
or_client_error-eq-ok (err x) m e = cc
or_client_error-eq-ok Result.panic m e = cc

parsed_uint-lt :
    (o : Option ℕ) (bits : ℕ) {n : ℕ}
    → ((m : ℕ) → o ≡ some m → m < 2 ^ bits)
    → parsed_uint o ≡ ok n
    → n < 2 ^ bits
parsed_uint-lt none bits f e = cc
parsed_uint-lt (some m) bits f e = subst (λ x. x < 2 ^ bits) (ok-injective e) (f m refl)

uint_value-lt : (o : Option Bytes) (bits : ℕ) {n : ℕ} → uint_value o bits ≡ ok n → n < 2 ^ bits
unfolding uint_value
uint_value-lt none bits e = cc
uint_value-lt (some s) bits e = parsed_uint-lt (parse_uint s bits) bits (parse_uint-lt s bits) e

provided_uint-lt :
    (qp : QueryParams) (key : Bytes) (bits : ℕ) (m : String) {n : ℕ}
    → or_client_error (param_uint qp key bits) m ≡ ok n
    → n < 2 ^ bits
unfolding param_uint
provided_uint-lt qp key bits m e =
    uint_value-lt (param_string qp key) bits (or_client_error-eq-ok (param_uint qp key bits) m e)

min-le : (b : Bool) (n m d q : ℕ) → q ≡ (if b then min n m else d) → (q ≡ d) ⊎ (q ≤ m)
min-le true n m d q e = inr (ground (arith, e))
min-le false n m d q e = inl e

-- An announce that is accepted comes from a query with exactly one infohash, which is its own; it has
-- a peer ID of 20 bytes, a port of 16 bits that is not zero, an address in canonical form, and a
-- number of wanted peers that is the default or not above the maximum.
pub parse_announce-ok :
    (net : Net) (r : Request) (opts : ParseOptions) (q : AnnounceRequest)
    → parse_announce net r opts ≡ ok q
    → (qp : QueryParams) × (parse_url_data r.request_uri ≡ ok qp)
      × (qp.info_hashes ≡ q.info_hash ∷ [])
      × (length q.peer.id ≡ 20)
      × (q.peer.port ≢ 0)
      × (q.peer.port < 2 ^ 16)
      × IsCanonical q.peer.ip
      × ((q.num_want ≡ opts.default_num_want) ⊎ (q.num_want ≤ opts.max_num_want))
unfolding parse_announce
parse_announce-ok net r opts q h =
    let (qp, u, h₁) = >>=-eq-ok (parse_url_data r.request_uri) _ h in
    let (event, _, h₂) = >>=-eq-ok (parse_event (param_string qp (codes "event"))) _ h₁ in
    let (ih, hash, h₃) = >>=-eq-ok (only_hash qp.info_hashes) _ h₂ in
    let (id, peer, h₄) = >>=-eq-ok (parse_peer_id (param_string qp (codes "peer_id"))) _ h₃ in
    let (_, _, h₅) =
      >>=-eq-ok
        (or_client_error (param_uint qp (codes "left") 64) "failed to parse parameter: left") _
        h₄ in
    let (_, _, h₆) =
      >>=-eq-ok
        (or_client_error (param_uint qp (codes "downloaded") 64)
          "failed to parse parameter: downloaded")
        _ h₅ in
    let (_, _, h₇) =
      >>=-eq-ok
        (or_client_error (param_uint qp (codes "uploaded") 64)
          "failed to parse parameter: uploaded")
        _ h₆ in
    let (_, _, h₈) = >>=-eq-ok (parse_num_want (param_uint qp (codes "numwant") 32)) _ h₇ in
    let (port, p, h₉) =
      >>=-eq-ok
        (or_client_error (param_uint qp (codes "port") 16) "failed to parse parameter: port") _
        h₈ in
    let (_, _, h₀) =
      >>=-eq-ok
        (guard (is_some (requested_ip net r qp opts).0) (failed "failed to parse peer IP address"))
        _ h₉ in
    let sane = sanitize_announce-ok _ opts.max_num_want opts.default_num_want q h₀ in
    (
      qp,
      u,
      only_hash-eq-ok qp.info_hashes hash ∙ ap (λ x. x ∷ []) (sym sane.3),
      ap length sane.4 ∙ length-peer_id (param_string qp (codes "peer_id")) peer,
      sane.0,
      subst (λ x. x < 2 ^ 16) (sym sane.5)
          (provided_uint-lt qp (codes "port") 16 "failed to parse parameter: port" p),
      sane.1,
      min-le _ _ opts.max_num_want opts.default_num_want q.num_want sane.2,
    )
