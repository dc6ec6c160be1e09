-- ===== src/Middleware/Traffic/Effects.antt =====
-- What one announce leaves on the server of middleware/trafficpush/trafficpush.go.
use chihaya.Base.{
  ℕ, zero, suc, ◌≡◌, refl, sym, ap, ◌∙◌, Bool, true, false, Bytes, bytes_eq, List, [], ◌∷◌, ◌++◌,
  append-nil, Option, ℤ, Result, ok, err, if◌then◌else◌, arith,
}
use chihaya.Bittorrent.{AnnounceRequest, AnnounceResponse}
use chihaya.Bittorrent.Events.{event_string}
use chihaya.Middleware.{Context}
use chihaya.Middleware.Traffic.{
  Config, Snapshot, Fields, TrafficServer, last_key, counters_or_zero, attempts, snapshot, entry,
  push, record_traffic, push_traffic,
}
use chihaya.Redis.{family_name}

-- What an attempt to add an entry adds.
abbrev pub added : Result (Unit {0}) → Fields → List Fields
added (ok _) fields = fields ∷ []
added (err e) fields = []
added Result.panic fields = []

-- A server whose hashes answer and keep what is written. Its stream may refuse an entry.
pub record Laws {S : Type 0} (server : TrafficServer S) : Type 0 where
  pub entries : S → Bytes → List Fields
  pub hmget_hmset :
      (s : S) (k : Bytes) (x : Snapshot) (j : Bytes)
      → server.hmget (server.hmset s k x).0 j
        ≡ (if bytes_eq k j then ok (x.uploaded, x.downloaded, x.ts) else server.hmget s j)
  pub hmget_xadd :
      (s : S) (k : Bytes) (fields : Fields) (j : Bytes)
      → server.hmget (server.xadd s k fields).0 j ≡ server.hmget s j
  pub entries_hmset :
      (s : S) (k : Bytes) (x : Snapshot) (j : Bytes)
      → entries (server.hmset s k x).0 j ≡ entries s j
  pub entries_xadd :
      (s : S) (k : Bytes) (fields : Fields)
      → entries (server.xadd s k fields).0 k
        ≡ entries s k ++ added (server.xadd s k fields).1 fields

module _ {S : Type 0} (server : TrafficServer S) where
  -- One of the attempts succeeds.
  abbrev pub delivers : ℕ → S → Bytes → Fields → Bool
  delivers zero s stream fields = false
  delivers (suc n) s stream fields =
      let (s', r) = server.xadd s stream fields in
      elim r [ ok _ ↦ true | err e ↦ delivers n s' stream fields | Result.panic ↦ false ]

module _ {S : Type 0} (server : TrafficServer S) (laws : Laws server) where
  open laws use {entries, hmget_hmset, hmget_xadd, entries_hmset, entries_xadd}

  push-hmget :
      (n : ℕ) (s : S) (stream : Bytes) (fields : Fields) (j : Bytes)
      → server.hmget (push server n s stream fields) j ≡ server.hmget s j
  unfolding push
  push-hmget zero s stream fields j = refl
  push-hmget (suc n) s stream fields j = ground (
    arith,
    hmget_xadd s stream fields j,
    push-hmget n (server.xadd s stream fields).0 stream fields j,
  )

  push-entries :
      (n : ℕ) (s : S) (stream : Bytes) (fields : Fields)
      → entries (push server n s stream fields) stream
        ≡ entries s stream ++ (if delivers server n s stream fields then fields ∷ [] else [])
  unfolding push
  push-entries zero s stream fields = sym (append-nil (entries s stream))
  push-entries (suc n) s stream fields = ground (
    arith,
    entries_xadd s stream fields,
    append-nil (entries s stream),
    push-entries n (server.xadd s stream fields).0 stream fields,
  )

  -- A recorded announce replaces the counters that were kept for it, whatever the stream replies, and
  -- adds its entry once if one of the attempts succeeds.
  record_traffic_lem :
      (ip_text : Option Bytes → Bytes) (cfg : Config) (s : S) (now : ℤ) (ctx : Context)
      (req : AnnounceRequest) (resp : AnnounceResponse) (af event j : Bytes)
      → let key = last_key cfg ctx req in
        let r = record_traffic ip_text server cfg s now ctx req resp af event in
        let s1 = (server.hmset s key (snapshot ip_text now req af)).0 in
        let fields =
          entry ip_text now ctx req resp af event (counters_or_zero (server.hmget s key)) in
        (server.hmget r j
          ≡ (if bytes_eq key j then ok (req.uploaded, req.downloaded, now) else server.hmget s j))
        × (entries r cfg.stream_key
            ≡ entries s cfg.stream_key
              ++ (if delivers server (attempts cfg.retry_count) s1 cfg.stream_key fields
                  then fields ∷ []
                  else []))
  unfolding record_traffic snapshot
  record_traffic_lem ip_text cfg s now ctx req resp af event j =
      let key = last_key cfg ctx req in
      let kept = snapshot ip_text now req af in
      let s1 = (server.hmset s key kept).0 in
      let fields =
        entry ip_text now ctx req resp af event (counters_or_zero (server.hmget s key)) in
      (
        push-hmget (attempts cfg.retry_count) s1 cfg.stream_key fields j ∙ hmget_hmset s key kept j,
        push-entries (attempts cfg.retry_count) s1 cfg.stream_key fields
            ∙ ap
                (λ (x : List Fields).
                  x
                  ++ (if delivers server (attempts cfg.retry_count) s1 cfg.stream_key fields
                      then fields ∷ []
                      else []))
                (entries_hmset s key kept cfg.stream_key),
      )

  pub push_traffic-record :
      (ip_text : Option Bytes → Bytes) (cfg : Config) (now : ℤ) (s : S) (ctx : Context)
      (req : AnnounceRequest) (resp : AnnounceResponse) (af event : Bytes)
      → family_name req.peer.ip.address_family ≡ ok af
      → event_string req.event ≡ ok event
      → push_traffic ip_text server cfg now s ctx req resp
        ≡ (record_traffic ip_text server cfg s now ctx req resp af event, ok (ctx, req, resp))
  unfolding push_traffic record_traffic
  push_traffic-record ip_text cfg now s ctx req resp af event e f = rw (e, f, push_traffic)

  -- An announce of a known family and event always passes. Whatever the stream replies, the counters
  -- kept for its passkey, torrent and peer become its own, and no other counters change; the stream
  -- gets its entry, once, if one of the attempts succeeds, and nothing otherwise. The hashes of the
  -- server answer and keep what is written; a refused XADD adds nothing.
  pub push_traffic-effect :
      (ip_text : Option Bytes → Bytes) (cfg : Config) (now : ℤ) (s : S) (ctx : Context)
      (req : AnnounceRequest) (resp : AnnounceResponse) (af event j : Bytes)
      → family_name req.peer.ip.address_family ≡ ok af
      → event_string req.event ≡ ok event
      → let key = last_key cfg ctx req in
        let r = push_traffic ip_text server cfg now s ctx req resp in
        let s1 = (server.hmset s key (snapshot ip_text now req af)).0 in
        let fields =
          entry ip_text now ctx req resp af event (counters_or_zero (server.hmget s key)) in
        (r.1 ≡ ok (ctx, req, resp))
        × (server.hmget r.0 j
            ≡ (if bytes_eq key j then ok (req.uploaded, req.downloaded, now) else server.hmget s j))
        × (entries r.0 cfg.stream_key
            ≡ entries s cfg.stream_key
              ++ (if delivers server (attempts cfg.retry_count) s1 cfg.stream_key fields
                  then fields ∷ []
                  else []))
  push_traffic-effect ip_text cfg now s ctx req resp af event j e f =
      rw (push_traffic-record ip_text cfg now s ctx req resp af event e f) (
        refl,
        (record_traffic_lem ip_text cfg s now ctx req resp af event j).0,
        (record_traffic_lem ip_text cfg s now ctx req resp af event j).1,
      )
