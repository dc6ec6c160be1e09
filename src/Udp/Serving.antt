-- ===== src/Udp/Serving.antt =====
-- The loop that reads packets and its shutdown (serve, Stop and ResponseWriter of
-- frontend/udp/frontend.go, with the buffers of frontend/udp/bytepool/bytepool.go).
--
-- The socket is what each read of it gives. The code handles each packet in a goroutine of its own;
-- here its handler, and what that starts after the reply, ends before the next packet is read. The
-- metrics and the times of responses are not modelled.
pub mod Guarded
use chihaya.Base.{
  ℕ, zero, suc, ◌==◌, Bool, true, false, Bytes, length, List, [], ◌∷◌, ◌++◌, Option, none, some,
  replicate, Error, Result, ok, err, panic, if◌then◌else◌,
}
use chihaya.Bittorrent.Peers.{to4}
use chihaya.Middleware.{Context, Logic, after_announce, after_scrape}
use chihaya.Udp.{ParseOptions, Request}
use chihaya.Udp.Frontend
use chihaya.Udp.Frontend.{After, Served, handle_request}

-- What a read of the socket gives: a packet with its source, a failure that is temporary, another
-- failure of the network, or an error that is no net.Error.
pub data Read : Type 0 where
  received : Bytes → Bytes → ℕ → Read
  temporary : Read
  lasting : Error → Read
  not_of_network : Error → Read

-- A turn of the loop: whether the frontend is closing, what the socket gives, and the time.
pub record Turn : Type 0 where
  pub closing : Bool
  pub read : Read
  pub now : ℕ

-- A packet that is written, to an address and a port.
pub record Reply : Type 0 where
  pub ip : Bytes
  pub port : ℕ
  pub bytes : Bytes

-- How the loop ends: by a shutdown, by an error that is returned, by a panic; `serving` is that it
-- has not ended.
pub data End : Type 0 where
  shut_down : End
  failed : Error → End
  crashed : End
  serving : End

pub record Run (S : Type 0) : Type 0 where
  pub state : S
  pub replies : List Reply
  pub end : End

-- An IPv4 address is shortened, whichever way it is written.
unfoldable pub shorten : Bytes → Bytes
shorten ip = elim (to4 ip) [ some ip4 ↦ ip4 | none ↦ ip ]

unfoldable pub replies_to : Bytes → ℕ → Option Bytes → List Reply
replies_to ip port none = []
replies_to ip port (some bytes) = record { ip = ip; port = port; bytes = bytes } ∷ []

-- `Get` of a buffer that was put back: `Put` makes it as long as its capacity, and zero.
unfoldable pub put_buffer : Bytes → Bytes
put_buffer buffer = replicate (length buffer) 0

abbrev pub has_crashed : Result (Unit {0}) → Bool
has_crashed (ok _) = false
has_crashed (err e) = false
has_crashed Result.panic = true

module _ {S : Type 0} where
  unfoldable pub run_after : Logic S → After → S → S
  run_after logic After.no_after s = s
  run_after logic (After.after_announce ctx req resp) s = after_announce logic s ctx req resp
  run_after logic (After.after_scrape ctx req resp) s = after_scrape logic s ctx req resp

  abbrev pub prepend : List Reply → Run S → Run S
  prepend replies r = record r { replies = replies ++ r.replies }

  module _ (mac : Bytes → Bytes) (logic : Logic S) (ctx : Context) (max_clock_skew : ℕ)
      (opts : ParseOptions) where
    unfoldable pub handle_packet : Bytes → Bytes → ℕ → S → Served S
    unfolding shorten
    handle_packet packet ip now s =
        handle_request mac logic ctx s (record { packet = packet; ip = some (shorten ip) }) now
          max_clock_skew opts

    -- What a packet is answered, and the turns behind it. A panic in a goroutine ends the program.
    unfoldable pub go_on : Bytes → ℕ → Served S → (S → Run S) → Run S
    unfolding replies_to run_after
    go_on ip port done rest =
        if has_crashed done.outcome
        then record { state = done.state; replies = []; end = crashed }
        else prepend (replies_to ip port done.reply) (rest (run_after logic done.after done.state))

    -- One turn, up to what was read; `rest` is the turns behind it.
    unfoldable pub serve_read : Read → ℕ → (S → Run S) → S → Run S
    unfolding handle_packet go_on
    serve_read temporary now rest s = rest s
    serve_read (lasting e) now rest s = record { state = s; replies = []; end = failed e }
    serve_read (not_of_network e) now rest s = record { state = s; replies = []; end = crashed }
    serve_read (received packet ip port) now rest s =
        if length packet == 0
        then rest s
        else go_on (shorten ip) port (handle_packet packet ip now s) rest

    unfoldable pub serve : List Turn → S → Run S
    unfolding serve_read
    serve [] s = record { state = s; replies = []; end = serving }
    serve (t ∷ ts) s =
        if t.closing
        then record { state = s; replies = []; end = shut_down }
        else serve_read t.read t.now (serve ts) s
