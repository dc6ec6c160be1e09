-- ===== src/Bittorrent/Peers.antt =====
-- Addresses of peers and the equality of peers (bittorrent/bittorrent.go), over `To4`, `To16` and
-- `Equal` of Go's net.IP.
use chihaya.Base.{
  ◌==◌, ◌&&◌, Bool, false, Bytes, bytes_eq, length, take, drop, ◌++◌, ◌∷◌, [], Option, none, some,
  if◌then◌else◌,
}
use chihaya.Bittorrent.{Peer}

-- The first twelve bytes of an IPv4 address in IPv6 form.
abbrev pub v4_in_v6_prefix : Bytes
v4_in_v6_prefix = 0 ∷ 0 ∷ 0 ∷ 0 ∷ 0 ∷ 0 ∷ 0 ∷ 0 ∷ 0 ∷ 0 ∷ 0xff ∷ 0xff ∷ []

-- `net.IP.To4`
unfoldable pub to4 : Bytes → Option Bytes
to4 ip =
    if length ip == 4
    then some ip
    else if (length ip == 16) && bytes_eq (take 12 ip) v4_in_v6_prefix
    then some (drop 12 ip)
    else none

-- `net.IP.To16`
unfoldable pub to16 : Bytes → Option Bytes
to16 ip =
    if length ip == 4
    then some (v4_in_v6_prefix ++ ip)
    else if length ip == 16
    then some ip
    else none

-- The bytes of a net.IP; nil has none.
abbrev pub ip_bytes : Option Bytes → Bytes
ip_bytes none = []
ip_bytes (some b) = b

-- `net.IP.Equal`
unfoldable pub net_ip_equal : Bytes → Bytes → Bool
net_ip_equal a b =
    if length a == length b
    then bytes_eq a b
    else if (length a == 4) && (length b == 16)
    then bytes_eq (take 12 b) v4_in_v6_prefix && bytes_eq a (drop 12 b)
    else if (length a == 16) && (length b == 4)
    then bytes_eq (take 12 a) v4_in_v6_prefix && bytes_eq (drop 12 a) b
    else false

unfoldable pub equal_endpoint : Peer → Peer → Bool
equal_endpoint p x = (p.port == x.port) && net_ip_equal (ip_bytes p.ip.ip) (ip_bytes x.ip.ip)

unfoldable pub peer_equal : Peer → Peer → Bool
unfolding equal_endpoint
peer_equal p x = equal_endpoint p x && bytes_eq p.id x.id
