-- ===== src/Udp/ConnectionIds/Issued.antt =====
-- Connection IDs that the tracker issues (frontend/udp/connection_id.go) validate.
use chihaya.Base.{
  ℕ, ◌+◌, ◌*◌, ◌/◌, ◌%◌, ◌^◌, ◌<◌, ltb, leb, ◌≡◌, true, false, ◌||◌, ◌&&◌, Bytes, bytes_eq_refl,
  put_be, be, be_onto, length-put_be, take, drop, take-append, drop-append, ◌++◌, if◌then◌else◌,
  arith,
}
use chihaya.Udp.ConnectionIds.{second, ttl, generate, validate}

be-put_be4 : (n : ℕ) → n < 2 ^ 32 → be (put_be 4 (n % 2 ^ 32)) ≡ n
unfolding put_be be_onto
be-put_be4 n h = omega arith

take-stamp : (n : ℕ) (tag : Bytes) → take 4 (put_be 4 n ++ tag) ≡ put_be 4 n
take-stamp n tag = take-append (put_be 4 n) tag 4 (length-put_be 4 n)

drop-stamp : (n : ℕ) (tag : Bytes) → drop 4 (put_be 4 n ++ tag) ≡ tag
drop-stamp n tag = drop-append (put_be 4 n) tag 4 (length-put_be 4 n)

window :
    (ts later skew : ℕ)
    → (if ltb (ts + ttl) later || ltb (later + skew) ts then false else true)
      ≡ (leb later (ts + ttl) && leb ts (later + skew))
window ts later skew = ground arith

-- A connection ID that `generate` has issued to an address before the year 2106 validates for that
-- address at the times that are at most two minutes after the second in which it was issued and
-- not further before it than the clock skew allows, and at no other time.
pub validate-generate :
    (mac : Bytes → Bytes) (ip : Bytes) (now later max_clock_skew : ℕ)
    → now / second < 2 ^ 32
    → validate mac (generate mac ip now) ip later max_clock_skew ≡ (
        leb later (now / second * second + ttl)
        && leb (now / second * second) (later + max_clock_skew))
unfolding generate validate
validate-generate mac ip now later max_clock_skew h =
    let n : ℕ = (now / second) % 2 ^ 32 in
    let tag : Bytes = take 4 (mac (put_be 4 n ++ ip)) in
    simp (
      take-stamp n tag,
      drop-stamp n tag,
      be-put_be4 (now / second) h,
      bytes_eq_refl tag,
      window (now / second * second) later max_clock_skew,
    )
