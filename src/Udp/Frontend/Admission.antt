-- ===== src/Udp/Frontend/Admission.antt =====
-- Which packets reach the tracker logic (handleRequest of frontend/udp/frontend.go).
use chihaya.Base.{
  ℕ, ◌==◌, ltb, false, Bytes, be, length, take, Bool-cases, inl, inr, ◌≡◌, refl, arith,
}
use chihaya.Middleware.{Context, Logic}
use chihaya.Udp.{ParseOptions, Request}
use chihaya.Udp.Parser.{slice}
use chihaya.Udp.ConnectionIds.{validate}
use chihaya.Bittorrent.Peers.{ip_bytes}
use chihaya.Udp.Frontend.{handle_request, serve_connect, refused, no_after}

module _ {S : Type 0} where
  serve_connect-state :
      (mac : Bytes → Bytes) (s : S) (r : Request) (now : ℕ)
      → ((serve_connect mac s r now).state ≡ s) × ((serve_connect mac s r now).after ≡ no_after)
  unfolding serve_connect
  serve_connect-state mac s r now = ground arith

  -- A packet without a connection ID that validates for its source address changes nothing and
  -- starts nothing, whatever its action and its length.
  pub handle_request-needs_id :
      (mac : Bytes → Bytes) (logic : Logic S) (ctx : Context) (s : S) (r : Request)
      (now max_clock_skew : ℕ) (opts : ParseOptions)
      → validate mac (take 8 r.packet) (ip_bytes r.ip) now max_clock_skew ≡ false
      → ((handle_request mac logic ctx s r now max_clock_skew opts).state ≡ s)
        × ((handle_request mac logic ctx s r now max_clock_skew opts).after ≡ no_after)
  unfolding handle_request refused
  handle_request-needs_id mac logic ctx s r now max_clock_skew opts invalid =
      elim (Bool-cases (ltb (length r.packet) 16)) [
        | inl e ↦ simp (e) (refl, refl)
        | inr e ↦ elim (Bool-cases (be (slice 8 12 r.packet) == 0)) [
          | inl c ↦ simp (e, c) (serve_connect-state mac s r now)
          | inr c ↦ simp (e, c, invalid) (refl, refl)
        ]
      ]
