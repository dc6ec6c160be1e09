-- ===== src/Bittorrent/Params/Hashes.antt =====
-- What the parser of URL data guarantees.
use chihaya.Base.{
  ℕ, ◌==◌, ◌≡◌, refl, ap, ap₂, subst, ==_iff, ◌∙◌, sym, ◌⊎◌, inl, inr, Bytes, codes, bytes_eq,
  length, List, [], ◌∷◌, ◌++◌, none, some, ok, >>=-eq-ok, ok-injective, arith, Bool-cases,
}
use chihaya.Bittorrent.{QueryParams, info_hash_from_string}
use chihaya.Bittorrent.Params.{
  cut, or_empty, query_unescape, unescaped, add_param, parse_pair, pieces, parse_pairs, parse_query,
  parse_url_data,
}

abbrev pub AllHashes : List Bytes → Type 0
AllHashes [] = Unit {0}
AllHashes (h ∷ hs) = (length h ≡ 20) × AllHashes hs

AllHashes-append :
    (hs : List Bytes) (h : Bytes) → AllHashes hs → length h ≡ 20 → AllHashes (hs ++ h ∷ [])
AllHashes-append [] h a l = (l, tt)
AllHashes-append (x ∷ hs) h a l = (a.0, AllHashes-append hs h a.1 l)

add_param-keeps :
    (key value : Bytes) (q q' : QueryParams)
    → AllHashes q.info_hashes
    → add_param key value q ≡ ok q'
    → AllHashes q'.info_hashes × (q'.query ≡ q.query)
unfolding add_param info_hash_from_string
add_param-keeps key value q q' a e = elim (Bool-cases (bytes_eq key (codes "info_hash"))) [
  | inl h ↦ ground (arith, AllHashes-append q.info_hashes value a)
  | inr h ↦ ground arith
]

parse_pair-keeps :
    (p : Bytes) (q q' : QueryParams)
    → AllHashes q.info_hashes
    → parse_pair p q ≡ ok q'
    → AllHashes q'.info_hashes × (q'.query ≡ q.query)
unfolding parse_pair
parse_pair-keeps [] q q' a e = ground arith
parse_pair-keeps (c ∷ s) q q' a e =
    let kv = cut (λ x. x == b'=') (c ∷ s) in
    let (key, _, e₁) = >>=-eq-ok (unescaped (query_unescape kv.0)) _ e in
    let (value, _, e₂) = >>=-eq-ok (unescaped (query_unescape (or_empty kv.1))) _ e₁ in
    add_param-keeps key value q q' a e₂

parse_pairs-keeps :
    (ps : List Bytes) (q q' : QueryParams)
    → AllHashes q.info_hashes
    → parse_pairs ps q ≡ ok q'
    → AllHashes q'.info_hashes × (q'.query ≡ q.query)
unfolding parse_pairs
parse_pairs-keeps [] q q' a e = ground arith
parse_pairs-keeps (p ∷ ps) q q' a e =
    let (m, e₁, e₂) = >>=-eq-ok (parse_pair p q) _ e in
    let (b, f) = parse_pair-keeps p q m a e₁ in
    let (c, g) = parse_pairs-keeps ps m q' b e₂ in (c, g ∙ f)

-- The two sides of a cut at `c` make up the text.
cut-parts :
    (c : ℕ) (s : Bytes)
    → ((cut (λ x. x == c) s).1 ≡ none) × ((cut (λ x. x == c) s).0 ≡ s)
      ⊎ ((rest : Bytes) × ((cut (λ x. x == c) s).1 ≡ some rest)
          × (s ≡ (cut (λ x. x == c) s).0 ++ c ∷ rest))
unfolding cut
cut-parts c [] = inl (refl, refl)
cut-parts c (x ∷ s) = elim (Bool-cases (x == c)) [
  | inl e ↦ inr (s, rw (e, cut), rw (e, cut) (ap (λ y. y ∷ s) ((==_iff x c).0 e)))
  | inr e ↦ elim (cut-parts c s) [
    | inl (n, p) ↦ inl (rw (e, cut) n, rw (e, cut) (ap (◌∷◌ x) p))
    | inr (rest, n, p) ↦ inr (rest, rw (e, cut) n, rw (e, cut) (ap (◌∷◌ x) p))
  ]
]

-- Parsed URL data consist of the path, and of the query behind the first question mark; every
-- infohash collected has twenty bytes.
pub parse_url_data-parts :
    (url : Bytes) (q : QueryParams)
    → parse_url_data url ≡ ok q
    → ((url ≡ q.path) ⊎ (url ≡ q.path ++ b'?' ∷ q.query)) × AllHashes q.info_hashes
unfolding parse_url_data parse_query
parse_url_data-parts url q e =
    let pq = cut (λ x. x == b'?') url in
    let (m, e₁, e₂) = >>=-eq-ok (parse_query (or_empty pq.1)) _ e in
    let (hashes, query) = parse_pairs-keeps (pieces [] (or_empty pq.1)) _ m tt e₁ in
    let is = ok-injective e₂ in
    (
      elim (cut-parts b'?' url) [
        | inl (n, p) ↦ inl (sym p ∙ ap (λ x. x.path) is)
        | inr (rest, n, p) ↦ inr (
            p
            ∙ ap₂ (λ x y. x ++ b'?' ∷ y) (ap (λ x. x.path) is)
                (sym (ap or_empty n) ∙ sym query ∙ ap (λ x. x.query) is))
      ],
      subst (λ (x : QueryParams). AllHashes x.info_hashes) is hashes,
    )
