-- ===== src/Bittorrent/Sanitize/Bounds.antt =====
-- What a sanitized request satisfies.
use chihaya.Base.{
  ℕ, ◌==◌, ◌≡◌, ◌≢◌, refl, ◌⊎◌, inl, inr, Bytes, length, take, take_all, length-drop, Option, none,
  some, Option-cases, Result-cases, Bool-cases, ok, err, ok-injective, guard, >>=-eq-ok,
  if◌then◌else◌, arith, min, not, subst,
}
use chihaya.Bittorrent.{AnnounceRequest, ScrapeRequest, Ip, ipv4, ipv6}
use chihaya.Bittorrent.Peers.{to4, ip_bytes}
use chihaya.Bittorrent.Sanitize.{
  sanitize_ip, sanitize_announce, sanitize_scrape, sanitize_num_want, err_invalid_ip,
  err_invalid_port,
}

-- Four bytes with the family IPv4, or sixteen with IPv6 that hold no IPv4 address.
abbrev pub IsCanonical : Ip → Type 0
IsCanonical i =
    ((b : Bytes) × (i.ip ≡ some b) × (length b ≡ 4) × (i.address_family ≡ ipv4))
    ⊎ ((b : Bytes) × (i.ip ≡ some b) × (length b ≡ 16) × (to4 b ≡ none) × (i.address_family ≡ ipv6))

length-to4 : (b : Bytes) {v : Bytes} → to4 b ≡ some v → length v ≡ 4
unfolding to4
length-to4 b h = ground (arith, length-drop 12 b)

sanitize_ip-IsCanonical : (i : Ip) {j : Ip} → sanitize_ip i ≡ ok j → IsCanonical j
unfolding sanitize_ip
sanitize_ip-IsCanonical i {j} h = elim (Option-cases (to4 (ip_bytes i.ip))) [
  | inr (v, e) ↦ inl (v, ground arith, length-to4 (ip_bytes i.ip) e, ground arith)
  | inl e ↦ sixteen i.ip refl e
]
  where
    sixteen : (o : Option Bytes) → i.ip ≡ o → to4 (ip_bytes i.ip) ≡ none → IsCanonical j
    sixteen none eq e = absurd (ground arith)
    sixteen (some b) eq e = inr (b, ground arith, ground arith, ground arith, ground arith)

-- A request that passes has a port other than zero, an address in canonical form, and the number
-- of peers that it asked for, cut to the maximum, or else the default; its hash, ID and port are
-- those it had.
pub sanitize_announce-ok :
    (r : AnnounceRequest) (max_num_want default_num_want : ℕ) (q : AnnounceRequest)
    → sanitize_announce r max_num_want default_num_want ≡ ok q
    → (q.peer.port ≢ 0)
      × IsCanonical q.peer.ip
      × (q.num_want
          ≡ (if r.num_want_provided then min r.num_want max_num_want else default_num_want))
      × (q.info_hash ≡ r.info_hash)
      × (q.peer.id ≡ r.peer.id)
      × (q.peer.port ≡ r.peer.port)
unfolding sanitize_announce sanitize_num_want
sanitize_announce-ok r m d q h =
    let (_, g, h₁) = >>=-eq-ok (guard (not (r.peer.port == 0)) err_invalid_port) _ h in
    let (j, e, h₂) = >>=-eq-ok (sanitize_ip r.peer.ip) _ h₁ in
    let is = ok-injective h₂ in
    (
      ground arith,
      subst (λ (x : AnnounceRequest). IsCanonical x.peer.ip) is
          (sanitize_ip-IsCanonical r.peer.ip e),
      ground arith,
      ground arith,
      ground arith,
      ground arith,
    )

-- A request is refused for a port of zero or else for an address that is neither IPv4 nor IPv6,
-- with the error of that name, and never panics.
pub sanitize_announce-refused :
    (r : AnnounceRequest) (max_num_want default_num_want : ℕ)
    → ((q : AnnounceRequest) × (sanitize_announce r max_num_want default_num_want ≡ ok q))
      ⊎ (((r.peer.port ≡ 0)
            × (sanitize_announce r max_num_want default_num_want ≡ err err_invalid_port))
          ⊎ ((to4 (ip_bytes r.peer.ip.ip) ≡ none)
              × (length (ip_bytes r.peer.ip.ip) ≢ 16)
              × (sanitize_announce r max_num_want default_num_want ≡ err err_invalid_ip)))
unfolding sanitize_announce sanitize_ip
sanitize_announce-refused r m d = elim (Bool-cases (r.peer.port == 0)) [
  | inl z ↦ inr (inl (ground arith, ground arith))
  | inr nz ↦ elim (Result-cases (sanitize_ip r.peer.ip)) [
    | inl (j, e) ↦
        inl (record (sanitize_num_want m d r) { peer = record (r.peer) { ip = j } }, ground arith)
    | inr f ↦ inr (inr (ground arith, ground arith, ground arith))
  ]
]

-- A scrape keeps its first infohashes, at most as many as are allowed.
pub sanitize_scrape-take :
    (r : ScrapeRequest) (m : ℕ) → (sanitize_scrape r m).info_hashes ≡ take m r.info_hashes
unfolding sanitize_scrape
sanitize_scrape-take r m = ground (arith, take_all r.info_hashes m)
