-- ===== src/Bittorrent/Sanitize.antt =====
-- Limits and address families of requests (bittorrent/sanitize.go).
pub mod Bounds
use chihaya.Base.{
  ℕ, ◌==◌, ◌≤◌, ltb, Bytes, codes, length, take, Option, none, some, Option-cases, Result, ok, err,
  Error, client_error, if◌then◌else◌, ◌≡◌, arith, not, Bool, guard, ◌>>=◌, ◌>>◌,
}
use chihaya.Bittorrent.{AnnounceRequest, ScrapeRequest, Peer, Ip, ipv4, ipv6}
use chihaya.Bittorrent.Peers.{to4, ip_bytes}

abbrev pub err_invalid_ip : Error
err_invalid_ip = client_error (codes "invalid IP")

abbrev pub err_invalid_port : Error
err_invalid_port = client_error (codes "invalid port")

-- `maxNumWant` bounds a count that was provided, and the default stands for one that was not.
unfoldable pub sanitize_num_want : ℕ → ℕ → AnnounceRequest → AnnounceRequest
sanitize_num_want max_num_want default_num_want r =
    if not r.num_want_provided
    then record r { num_want = default_num_want }
    else if ltb max_num_want r.num_want
    then record r { num_want = max_num_want }
    else r

-- The address in its shortest form, with its family.
unfoldable pub sanitize_ip : Ip → Result Ip
sanitize_ip i = elim (to4 (ip_bytes i.ip)) [
  | some v4 ↦ ok (record { ip = some v4; address_family = ipv4 })
  | none ↦
      if length (ip_bytes i.ip) == 16
      then ok (record i { address_family = ipv6 })
      else err err_invalid_ip
]

unfoldable pub sanitize_announce : AnnounceRequest → ℕ → ℕ → Result AnnounceRequest
unfolding sanitize_num_want
sanitize_announce r max_num_want default_num_want = do
  guard (not (r.peer.port == 0)) err_invalid_port
  i ← sanitize_ip r.peer.ip
  ok (record (sanitize_num_want max_num_want default_num_want r) {
    peer = record (r.peer) { ip = i };
  })

unfoldable pub sanitize_scrape : ScrapeRequest → ℕ → ScrapeRequest
sanitize_scrape r max_scrape_info_hashes =
    if ltb max_scrape_info_hashes (length r.info_hashes)
    then record r { info_hashes = take max_scrape_info_hashes r.info_hashes }
    else r
