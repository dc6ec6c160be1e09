-- ===== src/Udp/ConnectionIds.antt =====
-- Connection IDs (frontend/udp/connection_id.go). The keyed hash is a parameter: `mac message` is
-- the 32-byte HMAC of a message under the tracker's key. Times are nanoseconds since 1970.
pub mod Issued
use chihaya.Base.{
  ℕ, ◌+◌, ◌*◌, ◌/◌, ◌%◌, ◌^◌, ◌≤◌, ◌<◌, ltb, leb, ◌≡◌, refl, sym, ap, ap₂, ◌∙◌, Bool, true, false,
  not, ◌||◌, ◌&&◌, Bytes, AreBytes, bytes_eq, bytes_eq_iff, put_be, be, be_onto, length,
  length-append, length-put_be, length-take, take, drop, take-append, drop-append, [], ◌∷◌, ◌++◌,
  if◌then◌else◌, arith, Bool-cases, inl, inr,
}

abbrev pub second : ℕ
second = 1_000_000_000

-- Two minutes.
abbrev pub ttl : ℕ
ttl = 2 * 60 * second

module _ (mac : Bytes → Bytes) where
  -- Four bytes of time in seconds, and the first four of the hash of that time and the address.
  unfoldable pub generate : Bytes → ℕ → Bytes
  generate ip now =
      let stamp = put_be 4 ((now / second) % 2 ^ 32) in stamp ++ take 4 (mac (stamp ++ ip))

  unfoldable pub validate : Bytes → Bytes → ℕ → ℕ → Bool
  validate connection_id ip now max_clock_skew =
      let ts = be (take 4 connection_id) * second in
      if ltb (ts + ttl) now || ltb (now + max_clock_skew) ts
      then false
      else bytes_eq (take 4 (mac (take 4 connection_id ++ ip))) (drop 4 connection_id)
