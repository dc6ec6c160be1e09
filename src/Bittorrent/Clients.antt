-- ===== src/Bittorrent/Clients.antt =====
-- The client software that a peer ID names (bittorrent/client_id.go).
use chihaya.Base.{◌==◌, leb, Bytes, length, get_or, take, drop, replicate, if◌then◌else◌}

-- The result is six bytes, all zero where the peer ID is too short; `pid[1:7]` is the six bytes
-- behind a leading dash.
unfoldable pub new_client_id : Bytes → Bytes
new_client_id pid =
    if leb 6 (length pid)
    then if get_or pid 0 0 == b'-'
      then if leb 7 (length pid) then take 6 (drop 1 pid) else replicate 6 0
      else take 6 pid
    else replicate 6 0
