-- ===== src/Middleware/Traffic/Accounting.antt =====
-- What the entries of middleware/trafficpush/trafficpush.go add up to.
use chihaya.Base.{
  ℕ, zero, suc, ◌+◌, ◌≤◌, ◌≡◌, ◌≢◌, refl, sym, subst, true, Bytes, bytes_eq, bytes_eq_refl, codes,
  List, [], ◌∷◌, ◌++◌, Option, ℤ, ok, if◌then◌else◌, arith,
}
use chihaya.Bittorrent.{AnnounceRequest, AnnounceResponse}
use chihaya.Bittorrent.Events.{event_string}
use chihaya.Middleware.{Context}
use chihaya.Middleware.Traffic.{
  Config, text, num, int, Fields, TrafficServer, last_key, attempts, snapshot, entry, increment,
  push_traffic,
}
use chihaya.Middleware.Traffic.Effects.{Laws, delivers, push_traffic-effect}
use chihaya.Redis.{family_name}

-- The number under a name in an entry, or zero.
pub number : Bytes → Fields → ℕ
number name [] = 0
number name ((k, num n) ∷ fields) = if bytes_eq k name then n else number name fields
number name ((k, text v) ∷ fields) = number name fields
number name ((k, int v) ∷ fields) = number name fields

-- The sum of the numbers under a name over the entries of a stream.
pub total : Bytes → List Fields → ℕ
unfolding number
total name [] = 0
total name (fields ∷ rest) = number name fields + total name rest

total-append :
    (name : Bytes) (xs ys : List Fields) → total name (xs ++ ys) ≡ total name xs + total name ys
unfolding total
total-append name [] ys = omega arith
total-append name (x ∷ xs) ys = omega (arith, total-append name xs ys)

total-append_one :
    (name : Bytes) (xs : List Fields) (fields : Fields)
    → total name (xs ++ fields ∷ []) ≡ total name xs + number name fields
unfolding total
total-append_one name xs fields = omega (arith, total-append name xs (fields ∷ []))

-- An announce as the hook gets it, with the time and the names of its family and its event.
pub record Report : Type 0 where
  pub now : ℤ
  pub ctx : Context
  pub req : AnnounceRequest
  pub resp : AnnounceResponse
  pub af : Bytes
  pub event : Bytes

-- The announce is one of the peer whose counters stand under the key.
pub record IsReport (cfg : Config) (key : Bytes) (r : Report) : Type 0 where
  pub family : family_name r.req.peer.ip.address_family ≡ ok r.af
  pub names_event : event_string r.req.event ≡ ok r.event
  pub same_key : last_key cfg r.ctx r.req ≡ key

-- The counters of the announces do not fall.
abbrev pub Rising : Config → Bytes → ℕ → ℕ → List Report → Type 0
Rising cfg key up down [] = Unit {0}
Rising cfg key up down (r ∷ rs) =
    IsReport cfg key r
    × (up ≤ r.req.uploaded)
    × (down ≤ r.req.downloaded)
    × Rising cfg key r.req.uploaded r.req.downloaded rs

-- The counters of the last announce.
abbrev pub last_up : ℕ → List Report → ℕ
last_up up [] = up
last_up up (r ∷ rs) = last_up r.req.uploaded rs

abbrev pub last_down : ℕ → List Report → ℕ
last_down down [] = down
last_down down (r ∷ rs) = last_down r.req.downloaded rs

number-entry :
    (ip_text : Option Bytes → Bytes) (now : ℤ) (ctx : Context) (req : AnnounceRequest)
    (resp : AnnounceResponse) (af event : Bytes) (up down : ℕ) (ts : ℤ)
    → let fields = entry ip_text now ctx req resp af event (up, down, ts) in
      (number (codes "du") fields ≡ increment req.uploaded up)
      × (number (codes "dd") fields ≡ increment req.downloaded down)
unfolding number entry bytes_eq
number-entry ip_text now ctx req resp af event up down ts = (refl, refl)

increment-add : (now last : ℕ) → last ≤ now → increment now last + last ≡ now
unfolding increment
increment-add now last h = ground arith

module _ (ip_text : Option Bytes → Bytes) {S : Type 0} (server : TrafficServer S)
    (laws : Laws server) (cfg : Config) where
  open laws use {entries}

  -- The hook over the announces of a session, one after the other.
  abbrev pub run : List Report → S → S
  run [] s = s
  run (r ∷ rs) s = run rs (push_traffic ip_text server cfg r.now s r.ctx r.req r.resp).0

  -- The stream takes every entry.
  abbrev pub Accepts : Type 0
  Accepts = (s : S) (k : Bytes) (fields : Fields) → (server.xadd s k fields).1 ≡ ok tt

  delivers_accepted :
      (n : ℕ) (s : S) (k : Bytes) (fields : Fields)
      → Accepts
      → n ≢ 0
      → delivers server n s k fields ≡ true
  delivers_accepted zero s k fields a h = absurd (h refl)
  delivers_accepted (suc n) s k fields a h = rw (a s k fields, delivers)

  -- One more announce of a session.
  step_lem :
      (s : S) (r : Report) (key : Bytes) (up down : ℕ) (ts : ℤ)
      → Accepts
      → attempts cfg.retry_count ≢ 0
      → IsReport cfg key r
      → up ≤ r.req.uploaded
      → down ≤ r.req.downloaded
      → server.hmget s key ≡ ok (up, down, ts)
      → let s' = (push_traffic ip_text server cfg r.now s r.ctx r.req r.resp).0 in
        (server.hmget s' key ≡ ok (r.req.uploaded, r.req.downloaded, r.now))
        × (total (codes "du") (entries s' cfg.stream_key) + up
            ≡ total (codes "du") (entries s cfg.stream_key) + r.req.uploaded)
        × (total (codes "dd") (entries s' cfg.stream_key) + down
            ≡ total (codes "dd") (entries s cfg.stream_key) + r.req.downloaded)
  step_lem s r key up down ts a n i u d h =
      let k = last_key cfg r.ctx r.req in
      let before : server.hmget s k ≡ ok (up, down, ts) =
        subst (λ x. server.hmget s x ≡ ok (up, down, ts)) (sym i.same_key) h in
      let fields = entry ip_text r.now r.ctx r.req r.resp r.af r.event (up, down, ts) in
      let s' = (push_traffic ip_text server cfg r.now s r.ctx r.req r.resp).0 in
      let (_, q, es) =
        push_traffic-effect server laws ip_text cfg r.now s r.ctx r.req r.resp r.af r.event k
          i.family i.names_event in
      let here : server.hmget s' k ≡ ok (r.req.uploaded, r.req.downloaded, r.now) =
        rw (bytes_eq_refl k) at q in
      let now : entries s' cfg.stream_key ≡ entries s cfg.stream_key ++ fields ∷ [] =
        rw
          (
            before,
            delivers_accepted (attempts cfg.retry_count)
                (server.hmset s k (snapshot ip_text r.now r.req r.af)).0 cfg.stream_key fields a n,
          )
          at es in
      let (du, dd) = number-entry ip_text r.now r.ctx r.req r.resp r.af r.event up down ts in
      (
        subst (λ x. server.hmget s' x ≡ ok (r.req.uploaded, r.req.downloaded, r.now)) i.same_key
            here,
        rw now (
            omega (
              arith,
              total-append_one (codes "du") (entries s cfg.stream_key) fields,
              du,
              increment-add r.req.uploaded up u,
            )),
        rw now (
            omega (
              arith,
              total-append_one (codes "dd") (entries s cfg.stream_key) fields,
              dd,
              increment-add r.req.downloaded down d,
            )),
      )

  -- Over a server that answers and a stream that takes every entry, in a session of one peer whose
  -- counters do not fall, the entries add up to what the peer reported: the sum of `du` grows by the
  -- last upload less the one kept before the session, and the sum of `dd` likewise by the download.
  pub session_totals :
      (rs : List Report) (s : S) (key : Bytes) (up down : ℕ) (ts : ℤ)
      → Accepts
      → attempts cfg.retry_count ≢ 0
      → Rising cfg key up down rs
      → server.hmget s key ≡ ok (up, down, ts)
      → (total (codes "du") (entries (run rs s) cfg.stream_key) + up
          ≡ total (codes "du") (entries s cfg.stream_key) + last_up up rs)
        × (total (codes "dd") (entries (run rs s) cfg.stream_key) + down
            ≡ total (codes "dd") (entries s cfg.stream_key) + last_down down rs)
  session_totals [] s key up down ts a n rising h = (refl, refl)
  session_totals (r ∷ rs) s key up down ts a n (i, u, d, rest) h =
      let s' = (push_traffic ip_text server cfg r.now s r.ctx r.req r.resp).0 in
      let (here, p, q) = step_lem s r key up down ts a n i u d h in
      let (p', q') = session_totals rs s' key r.req.uploaded r.req.downloaded r.now a n rest here in
      (omega arith, omega arith)
