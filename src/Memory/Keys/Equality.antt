-- ===== src/Memory/Keys/Equality.antt =====
-- Peers with one key are the peers that `Peer.Equal` (bittorrent/bittorrent.go) takes for equal.
use chihaya.Base.{
  ◌<◌, ◌^◌, ◌≡◌, ap, ap₂, sym, ◌∙◌, ◌↔◌, inl, inr, true, false, Bytes, bytes_eq_iff, bytes_eq_refl,
  length, ◌++◌, none, ok-injective, put_be, subst, arith,
}
use chihaya.Bittorrent.{Peer, Ip}
use chihaya.Bittorrent.Peers.{to4, ip_bytes, net_ip_equal, equal_endpoint, peer_equal}
use chihaya.Bittorrent.Sanitize.Bounds.{IsCanonical}
use chihaya.Memory.Keys.{new_peer_key, decode_peer_key}
use chihaya.Memory.Keys.RoundTrip.{decode_peer_key-new_peer_key}

net_ip_equal_refl : (a : Bytes) → net_ip_equal a a ≡ true
unfolding net_ip_equal
net_ip_equal_refl a = ground (arith, bytes_eq_refl a)

peer_equal_refl : (p : Peer) → peer_equal p p ≡ true
unfolding peer_equal equal_endpoint
peer_equal_refl p = ground (arith, net_ip_equal_refl (ip_bytes p.ip.ip), bytes_eq_refl p.id)

-- An address with sixteen bytes that hold no IPv4 address is equal to none of four bytes.
net_ip_equal_same : (a b : Bytes) → length a ≡ length b → net_ip_equal a b ≡ true → a ≡ b
unfolding net_ip_equal
net_ip_equal_same a b l e = ground (arith, bytes_eq_iff a b)

net_ip_equal_mixed :
    (a b : Bytes) → length a ≡ 4 → length b ≡ 16 → to4 b ≡ none → net_ip_equal a b ≡ false
unfolding net_ip_equal to4
net_ip_equal_mixed a b la lb n = ground arith

net_ip_equal_mixed_flip :
    (a b : Bytes) → length a ≡ 4 → length b ≡ 16 → to4 b ≡ none → net_ip_equal b a ≡ false
unfolding net_ip_equal to4
net_ip_equal_mixed_flip a b la lb n = ground arith

canonical_same :
    (i j : Ip)
    → IsCanonical i
    → IsCanonical j
    → net_ip_equal (ip_bytes i.ip) (ip_bytes j.ip) ≡ true
    → ip_bytes i.ip ≡ ip_bytes j.ip
canonical_same i j (inl (a, e, l, f)) (inl (b, g, m, h)) t =
    net_ip_equal_same _ _ (rw (e, g) (l ∙ sym m)) t
canonical_same i j (inl (a, e, l, f)) (inr (b, g, m, n, h)) t =
    cc (net_ip_equal_mixed a b l m n, ap ip_bytes e, ap ip_bytes g)
canonical_same i j (inr (a, e, l, n, f)) (inl (b, g, m, h)) t =
    cc (net_ip_equal_mixed_flip b a m l n, ap ip_bytes e, ap ip_bytes g)
canonical_same i j (inr (a, e, l, n, f)) (inr (b, g, m, o, h)) t =
    net_ip_equal_same _ _ (rw (e, g) (l ∙ sym m)) t

equal_parts :
    (p q : Peer)
    → peer_equal p q ≡ true
    → (p.port ≡ q.port)
      × (net_ip_equal (ip_bytes p.ip.ip) (ip_bytes q.ip.ip) ≡ true)
      × (p.id ≡ q.id)
unfolding peer_equal equal_endpoint
equal_parts p q t = ground (arith, bytes_eq_iff p.id q.id)

-- Two peers with IDs of 20 bytes, ports below 2^16 and addresses in canonical form are equal for
-- `Peer.Equal` if and only if they have one key.
pub peer_equal-new_peer_key :
    (p q : Peer)
    → length p.id ≡ 20
    → length q.id ≡ 20
    → p.port < 2 ^ 16
    → q.port < 2 ^ 16
    → IsCanonical p.ip
    → IsCanonical q.ip
    → (peer_equal p q ≡ true) ↔ (new_peer_key p ≡ new_peer_key q)
unfolding peer_equal equal_endpoint new_peer_key
peer_equal-new_peer_key p q lp lq np nq cp cq = (
  λ t.
      let (port, ip, id) = equal_parts p q t in
      ap₂ ◌++◌ id (ap₂ ◌++◌ (ap (put_be 2) port) (canonical_same p.ip q.ip cp cq ip)),
  λ k.
      let same : p ≡ q = ok-injective (
        sym (decode_peer_key-new_peer_key p lp np cp)
        ∙ ap decode_peer_key k
        ∙ decode_peer_key-new_peer_key q lq nq cq) in
      subst (λ x. peer_equal p x ≡ true) same (peer_equal_refl p),
)
