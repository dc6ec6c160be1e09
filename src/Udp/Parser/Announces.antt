-- ===== src/Udp/Parser/Announces.antt =====
-- The peer's address and the infohashes that UDP packets give (frontend/udp/parser.go).
use chihaya.Base.{
  ℕ, zero, suc, ◌+◌, ◌*◌, ◌%◌, ◌==◌, ◌≤◌, leb, ◌≡◌, refl, ap, sym, ◌∙◌, true, Bytes, length,
  length-append, length-take, length-drop, take, drop, take-append, drop-append, List, [], ◌∷◌,
  ◌++◌, Option, none, some, ok, Bool-cases, inl, inr, arith,
}
use chihaya.Bittorrent.{ScrapeRequest, info_hash_from_bytes, ipv4}
use chihaya.Bittorrent.Sanitize.{sanitize_scrape}
use chihaya.Bittorrent.Sanitize.Bounds.{sanitize_scrape-take}
use chihaya.Bittorrent.Params.Hashes.{AllHashes}
use chihaya.Udp.{Request, ParseOptions}
use chihaya.Udp.Parser.{announce_ip, copy_into, read_hashes, parse_scrape}
use chihaya.Udp.Parser.OptionalParameters.{concat}

length-copied :
    (dst src : Bytes) → length (take (length dst) src ++ drop (length src) dst) ≡ length dst
length-copied dst src = omega (
  arith,
  length-append (take (length dst) src) (drop (length src) dst),
  length-take (length dst) src,
  length-drop (length src) dst,
)

some-injective : {a b : Bytes} → ok (some a) ≡ ok (some b) → a ≡ b
some-injective e = cc

-- If the source address of a packet is known, whatever address the client names for itself, an
-- address that is taken has the length of the source address: an IPv6 address that is named over
-- IPv4 is cut to four bytes.
pub length-announce_ip :
    (r : Request) (ip_bytes src b : Bytes) (opts : ParseOptions)
    → r.ip ≡ some src
    → announce_ip r ip_bytes opts ≡ ok (some b)
    → length b ≡ length src
unfolding announce_ip copy_into
length-announce_ip r ip_bytes src b opts i h = elim (Bool-cases opts.allow_ip_spoofing) [
  | inl e ↦
      let copied : ok (some (take (length src) ip_bytes ++ drop (length ip_bytes) src))
          ≡ ok (some b) =
        sym (rw (e, i, announce_ip, copy_into) refl) ∙ h in
      ap length (sym (some-injective copied)) ∙ length-copied src ip_bytes
  | inr e ↦
      let kept : ok (some src) ≡ ok (some b) = sym (rw (e, i, announce_ip) refl) ∙ h in
      ap length (sym (some-injective kept))
]

length-concat : (hs : List Bytes) → AllHashes hs → length (concat hs) ≡ 20 * length hs
length-concat [] a = refl
length-concat (h ∷ hs) a = omega (arith, length-append h (concat hs), length-concat hs a.1, a.0)

read_hashes-concat :
    (fuel : ℕ) (hs : List Bytes)
    → AllHashes hs
    → length hs ≤ fuel
    → read_hashes fuel (concat hs) ≡ ok hs
unfolding read_hashes info_hash_from_bytes
read_hashes-concat zero [] a l = refl
read_hashes-concat zero (h ∷ hs) a l = absurd (omega arith)
read_hashes-concat (suc fuel) [] a l = refl
read_hashes-concat (suc fuel) (h ∷ hs) a l =
    let e : (20 ≤ length (h ++ concat hs)) = omega (arith, length-append h (concat hs), a.0) in
    let le : leb 20 (length (h ++ concat hs)) ≡ true = ground arith in
    let t : take 20 (h ++ concat hs) ≡ h = take-append h (concat hs) 20 a.0 in
    let d : drop 20 (h ++ concat hs) ≡ concat hs = drop-append h (concat hs) 20 a.0 in
    let eq : (length h == 20) ≡ true = ground (arith, a.0) in
    simp (le, t, d, eq, read_hashes-concat fuel hs a.1 (omega arith))

-- A packet of a header of 16 bytes and of one or more infohashes of 20 bytes is read as a scrape
-- of those infohashes, in their order, cut to the first that are allowed.
pub parse_scrape-hashes :
    (header : Bytes) (h : Bytes) (hs : List Bytes) (ip : Option Bytes) (opts : ParseOptions)
    → length header ≡ 16
    → AllHashes (h ∷ hs)
    → (q : ScrapeRequest) × (parse_scrape
          (record { packet = header ++ concat (h ∷ hs); ip = ip })
          opts
        ≡ ok q)
      × (q.info_hashes ≡ take opts.max_scrape_info_hashes (h ∷ hs))
unfolding parse_scrape
parse_scrape-hashes header h hs ip opts l a =
    let all : Bytes = concat (h ∷ hs) in
    let n : length all ≡ 20 * suc (length hs) = length-concat (h ∷ hs) a in
    let whole : length (header ++ all) ≡ 16 + 20 * suc (length hs) =
      omega (arith, length-append header all, n, l) in
    let enough : leb 36 (length (header ++ all)) ≡ true = ground (arith, whole) in
    let d : drop 16 (header ++ all) ≡ all = drop-append header all 16 l in
    let even : (length all % 20 == 0) ≡ true = ground (arith, n) in
    let read : read_hashes (length all) all ≡ ok (h ∷ hs) =
      read_hashes-concat (length all) (h ∷ hs) a (omega (arith, n)) in
    let q : ScrapeRequest = record { address_family = ipv4; info_hashes = h ∷ hs; params = none } in
    (
      sanitize_scrape q opts.max_scrape_info_hashes,
      simp (enough, d, even, read),
      sanitize_scrape-take q opts.max_scrape_info_hashes,
    )
