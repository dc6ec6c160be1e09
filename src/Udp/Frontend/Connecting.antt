-- ===== src/Udp/Frontend/Connecting.antt =====
-- The answer to a connect (handleRequest of frontend/udp/frontend.go).
use chihaya.Base.{
  ℕ, ◌+◌, ◌*◌, ◌/◌, ◌^◌, ◌<◌, ltb, leb, ◌≡◌, ◌⊎◌, inl, inr, false, ◌&&◌, Bytes, put_be, be_onto,
  bytes_eq, length, take, take_all, Option-cases, [], ◌∷◌, ◌++◌, some, arith,
}
use chihaya.Bittorrent.{AddressFamily}
use chihaya.Bittorrent.Peers.{to4}
use chihaya.Middleware.{Context, Logic}
use chihaya.Udp.{ParseOptions, Request, initial_connection_id}
use chihaya.Udp.Writer.{write_header, write_connection_id}
use chihaya.Udp.ConnectionIds.{second, ttl, generate, validate}
use chihaya.Udp.ConnectionIds.Issued.{validate-generate}
use chihaya.Udp.Frontend.{handle_request, serve_connect, source_family}

source_family_known :
    (src : Bytes)
    → (length src ≡ 4) ⊎ (length src ≡ 16)
    → (af : AddressFamily) × (source_family (some src) ≡ some af)
source_family_known src h = elim (Option-cases (source_family (some src))) [
  | inl e ↦ absurd (unfold source_family to4 in ground arith)
  | inr e ↦ e
]

module _ {S : Type 0} where
  -- A client whose packet has the magic connection ID, the action of a connect and a transaction
  -- ID, and whose address is IPv4 or IPv6, is sent that action and transaction ID and a connection
  -- ID which, before the year 2106, validates for that address at the times that are at most two
  -- minutes after the second in which it was issued and not further before it than the clock skew
  -- allows. The state is left alone.
  pub handle_request-connect :
      (mac : Bytes → Bytes) (logic : Logic S) (ctx : Context) (s : S) (tx_id src : Bytes)
      (now max_clock_skew : ℕ) (opts : ParseOptions) (later : ℕ)
      → length tx_id ≡ 4
      → (length src ≡ 4) ⊎ (length src ≡ 16)
      → now / second < 2 ^ 32
      → let r : Request = record {
        packet = initial_connection_id ++ (0 ∷ 0 ∷ 0 ∷ 0 ∷ []) ++ tx_id;
        ip = some src;
      } in
        let served = handle_request mac logic ctx s r now max_clock_skew opts in
        (id : Bytes) × (served.reply ≡ some ((0 ∷ 0 ∷ 0 ∷ 0 ∷ []) ++ tx_id ++ id))
        × (served.state ≡ s)
        × (validate mac id src later max_clock_skew ≡ (
            leb later (now / second * second + ttl)
            && leb (now / second * second) (later + max_clock_skew)))
  unfolding handle_request serve_connect bytes_eq be_onto write_connection_id write_header put_be
  handle_request-connect mac logic ctx s tx_id src now max_clock_skew opts later t f n =
      let (af, e) = source_family_known src f in
      let packet : Bytes = initial_connection_id ++ (0 ∷ 0 ∷ 0 ∷ 0 ∷ []) ++ tx_id in
      let long : ltb (length packet) 16 ≡ false = ground (arith, t) in
      let tx : take 4 tx_id ≡ tx_id = take_all tx_id 4 (omega (arith, t)) in
      (
        generate mac src now,
        simp (long, e, tx),
        simp (long, e),
        validate-generate mac src now later max_clock_skew n,
      )
