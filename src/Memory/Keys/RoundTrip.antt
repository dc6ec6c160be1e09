-- ===== src/Memory/Keys/RoundTrip.antt =====
-- A serialized peer reads back as the peer.
use chihaya.Base.{
  ℕ, ◌<◌, ◌^◌, ◌≡◌, sym, ap, ◌∙◌, inl, inr, Bytes, put_be, be, be_onto, length, length-append,
  length-put_be, drop, take-append, drop-append, ◌++◌, append_assoc, some, ok, arith,
}
use chihaya.Bittorrent.{Peer, Ip, peer_id_from_string}
use chihaya.Bittorrent.Peers.{to4, ip_bytes}
use chihaya.Bittorrent.Sanitize.Bounds.{IsCanonical}
use chihaya.Memory.Keys.{new_peer_key, decode_peer_key, decode_ip}

be_port : (n : ℕ) → n < 2 ^ 16 → be (put_be 2 n) ≡ n
unfolding be_onto put_be
be_port n h = omega arith

to4_short : (b : Bytes) → length b ≡ 4 → to4 b ≡ some b
unfolding to4
to4_short b h = ground arith

decode_canonical : (i : Ip) → IsCanonical i → decode_ip (ip_bytes i.ip) ≡ ok i
unfolding decode_ip
decode_canonical i (inl (b, e, l, f)) = ground (arith, to4_short b)
decode_canonical i (inr (b, e, l, t, f)) = ground arith

-- Decoding the key of a peer gives the peer back: its ID has 20 bytes, its port is a uint16 and its
-- address is in canonical form.
pub decode_peer_key-new_peer_key :
    (p : Peer)
    → length p.id ≡ 20
    → p.port < 2 ^ 16
    → IsCanonical p.ip
    → decode_peer_key (new_peer_key p) ≡ ok p
unfolding decode_peer_key new_peer_key peer_id_from_string
decode_peer_key-new_peer_key p l q c =
    let n = put_be 2 p.port in
    let b = ip_bytes p.ip.ip in
    let drop22 =
      ap (drop 22) (sym (append_assoc p.id n b))
      ∙ drop-append (p.id ++ n) b 22
          (omega (arith, length-append p.id n, length-put_be 2 p.port)) in
    ground (
      arith,
      length-append p.id (n ++ b),
      length-append n b,
      length-put_be 2 p.port,
      take-append p.id (n ++ b) 20 l,
      drop-append p.id (n ++ b) 20 l,
      take-append n b 2 (length-put_be 2 p.port),
      drop22,
      be_port p.port q,
      decode_canonical p.ip c,
    )
