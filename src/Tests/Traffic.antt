-- ===== src/Tests/Traffic.antt =====
-- Two announces of Alice's session, over a server in memory.
use chihaya.Base.{
  ℕ, ◌+◌, ◌≡◌, refl, Bytes, bytes_eq, bytes_eq_refl, codes, List, [], ◌∷◌, ◌++◌, Option, ℤ, pos,
  Result, ok, if◌then◌else◌, arith,
}
use chihaya.Bittorrent.{AnnounceRequest}
use chihaya.Bittorrent.Events.{event_string}
use chihaya.Middleware.Limits.{passkey_of}
use chihaya.Middleware.Traffic.{
  Config, Fields, TrafficServer, last_key, snapshot, entry, push_traffic,
}
use chihaya.Middleware.Traffic.Accounting.{Report, IsReport, total, run, session_totals}
use chihaya.Middleware.Traffic.Effects.{Laws, delivers, push_traffic-effect}
use chihaya.Redis.{family_name}
use chihaya.Tests.{alice, on_route, announce, response}

-- The counters of the hashes, and the streams.
abbrev Kept : Type 0
Kept = (Bytes → Result (ℕ × ℕ × ℤ)) × (Bytes → List Fields)

abbrev server : TrafficServer Kept
server = record {
  hmget = λ s k. s.0 k;
  hmset = λ s k x.
      (((λ j. if bytes_eq k j then ok (x.uploaded, x.downloaded, x.ts) else s.0 j), s.1), ok tt);
  xadd = λ s k fields. ((s.0, (λ j. if bytes_eq k j then s.1 j ++ fields ∷ [] else s.1 j)), ok tt);
}

appended :
    (s : Kept) (k : Bytes) (fields : Fields) → (server.xadd s k fields).0.1 k ≡ s.1 k ++ fields ∷ []
appended s k fields = rw (bytes_eq_refl k) refl

abbrev laws : Laws server
laws = record {
  entries = λ s k. s.1 k;
  hmget_hmset = λ s k x j. refl;
  hmget_xadd = λ s k fields j. refl;
  entries_hmset = λ s k x j. refl;
  entries_xadd = appended;
}

abbrev config : Config
config = record {
  redis_broker = codes "redis://localhost/0";
  stream_key = codes "tracker:traffic";
  last_key_prefix = codes "tracker:last";
  retry_count = pos 3;
  retry_interval = pos 1_000_000_000;
  redis_read_timeout = pos 0;
  redis_write_timeout = pos 0;
  redis_connect_timeout = pos 0;
}

abbrev no_text : Option Bytes → Bytes
no_text ip = codes "10.0.0.1"

abbrev at : ℕ → ℕ → AnnounceRequest
at up down = record (announce 10 alice) { uploaded = up; downloaded = down }

abbrev report : ℕ → ℕ → ℕ → Report
report now up down = record {
  now = pos now;
  ctx = on_route;
  req = at up down;
  resp = response;
  af = codes "IPv4";
  event = codes "started";
}

abbrev key : Bytes
key = last_key config on_route (announce 10 alice)

is_report : (now up down : ℕ) → IsReport config key (report now up down)
unfolding family_name event_string passkey_of
is_report now up down = record { family = refl; names_event = refl; same_key = refl }

abbrev start : Kept
start = ((λ k. ok (100, 50, pos 900)), (λ k. []))

session_totals_example :
    let rs = report 1000 150 50 ∷ report 1900 400 90 ∷ [] in
    (total (codes "du") ((run no_text server laws config rs start).1 (codes "tracker:traffic"))
        + 100
      ≡ total (codes "du") [] + 400)
    × (total (codes "dd") ((run no_text server laws config rs start).1 (codes "tracker:traffic"))
          + 50
        ≡ total (codes "dd") [] + 90)
session_totals_example =
    session_totals no_text server laws config (report 1000 150 50 ∷ report 1900 400 90 ∷ []) start
      key 100 50 (pos 900) (λ s k fields. refl) (omega arith)
      (
        is_report 1000 150 50,
        omega arith,
        omega arith,
        (is_report 1900 400 90, omega arith, omega arith, tt),
      )
      refl

push_traffic-effect_example :
    let r = push_traffic no_text server config (pos 1000) start on_route (at 150 50) response in
    let s1 = (server.hmset start key (snapshot no_text (pos 1000) (at 150 50) (codes "IPv4"))).0 in
    let fields =
      entry no_text
        (pos 1000)
        on_route
        (at 150 50)
        response
        (codes "IPv4")
        (codes "started")
        (100, 50, pos 900) in
    (r.1 ≡ ok (on_route, at 150 50, response))
    × (r.0.0 key ≡ (if bytes_eq key key then ok (150, 50, pos 1000) else ok (100, 50, pos 900)))
    × (r.0.1 (codes "tracker:traffic")
        ≡ [] ++ (if delivers server 3 s1 (codes "tracker:traffic") fields then fields ∷ [] else []))
unfolding passkey_of
push_traffic-effect_example =
    push_traffic-effect server laws no_text config (pos 1000) start on_route (at 150 50) response
      (codes "IPv4") (codes "started") key (unfold family_name in refl)
      (unfold event_string in refl)
