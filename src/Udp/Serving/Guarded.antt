-- ===== src/Udp/Serving/Guarded.antt =====
-- What packets without a connection ID do to a tracker that serves them (frontend/udp/frontend.go).
use chihaya.Base.{
  ℕ, ◌≡◌, refl, false, Bytes, take, List, [], ◌∷◌, some, Bool-cases, inl, inr, arith,
}
use chihaya.Bittorrent.Peers.{ip_bytes}
use chihaya.Middleware.{Context, Logic}
use chihaya.Udp.{ParseOptions, Request}
use chihaya.Udp.ConnectionIds.{validate}
use chihaya.Udp.Frontend.Admission.{handle_request-needs_id}
use chihaya.Udp.Serving.{
  Read, received, temporary, lasting, not_of_network, Turn, Run, shorten, run_after, handle_packet,
  go_on, serve_read, serve,
}

module _ {S : Type 0} (mac : Bytes → Bytes) (logic : Logic S) (ctx : Context) (max_clock_skew : ℕ)
    (opts : ParseOptions) where
  -- The connection ID of what was read, if it is a packet, is not valid for its source.
  abbrev pub IsUnadmitted : ℕ → Read → Type 0
  IsUnadmitted now (received packet ip port) =
      validate mac (take 8 packet) (ip_bytes (some (shorten ip))) now max_clock_skew ≡ false
  IsUnadmitted now temporary = Unit {0}
  IsUnadmitted now (lasting e) = Unit {0}
  IsUnadmitted now (not_of_network e) = Unit {0}

  abbrev pub AreUnadmitted : List Turn → Type 0
  AreUnadmitted [] = Unit {0}
  AreUnadmitted (t ∷ ts) = IsUnadmitted t.now t.read × AreUnadmitted ts

  handle_packet-needs_id :
      (packet ip : Bytes) (now : ℕ) (s : S)
      → validate mac (take 8 packet) (ip_bytes (some (shorten ip))) now max_clock_skew ≡ false
      → let done = handle_packet mac logic ctx max_clock_skew opts packet ip now s in
        (done.state ≡ s) × (run_after logic done.after done.state ≡ s)
  unfolding handle_packet run_after
  handle_packet-needs_id packet ip now s h =
      let r : Request = record { packet = packet; ip = some (shorten ip) } in
      let (a, b) = handle_request-needs_id mac logic ctx s r now max_clock_skew opts h in
      (a, rw b a)

  serve_read-needs_id :
      (r : Read) (now : ℕ) (rest : S → Run S) (s : S)
      → IsUnadmitted now r
      → ((s : S) → (rest s).state ≡ s)
      → (serve_read mac logic ctx max_clock_skew opts r now rest s).state ≡ s
  unfolding serve_read go_on
  serve_read-needs_id temporary now rest s u keeps = keeps s
  serve_read-needs_id (lasting e) now rest s u keeps = refl
  serve_read-needs_id (not_of_network e) now rest s u keeps = refl
  serve_read-needs_id (received packet ip port) now rest s u keeps =
      let (a, b) = handle_packet-needs_id packet ip now s u in ground (arith, a, b, keeps s)

  -- However many packets are read, in whatever order and with whatever failures between them, as long
  -- as none has a connection ID that is valid for its source when it is read, the shared state of the
  -- tracker stays what it was.
  pub serve-needs_id :
      (ts : List Turn) (s : S)
      → AreUnadmitted ts
      → (serve mac logic ctx max_clock_skew opts ts s).state ≡ s
  unfolding serve
  serve-needs_id [] s a = refl
  serve-needs_id (t ∷ ts) s (u, a) = elim (Bool-cases t.closing) [
    | inl e ↦ rw e refl
    | inr e ↦ rw e (
        serve_read-needs_id t.read t.now (serve mac logic ctx max_clock_skew opts ts) s u
          (λ s'. serve-needs_id ts s' a))
  ]
