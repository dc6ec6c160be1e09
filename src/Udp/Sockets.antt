-- ===== src/Udp/Sockets.antt =====
-- Opening the UDP frontend and closing it (NewFrontend, listen and Stop of frontend/udp/frontend.go).
--
-- The network is the parameter `Sockets` on the shared state. Stop waits for the loop and for the
-- handlers that run; they end by themselves, since the read has a deadline from then on. The pool of
-- connection ID generators is left out: a generator is made of the private key alone.
pub mod Closed
use chihaya.Base.{
  Bool, true, false, Bytes, [], ◌∷◌, Option, none, some, Error, Result, ok, err, panic,
  if◌then◌else◌,
}
use chihaya.Support.Stops.{Errors, StopFunc, done, already_stopped}
use chihaya.Udp.Configs.{Config, validate}

-- net.ResolveUDPAddr, net.ListenUDP, and SetReadDeadline to now and Close of a socket.
pub record Sockets (N A L : Type 0) : Type 0 where
  pub resolve : Bytes → Result A
  pub listen_udp : A → N → N × Result L
  pub end_reads : L → N → N
  pub close : L → N → N × Option Error

-- `closing` says that the channel is closed.
pub record Frontend (L : Type 0) : Type 0 where
  pub cfg : Config
  pub socket : L
  pub closing : Bool

module _ {N A L : Type 0} (sockets : Sockets N A L) where
  abbrev pub bind : Result A → N → N × Result L
  bind (ok a) n = sockets.listen_udp a n
  bind (err e) n = (n, err e)
  bind Result.panic n = (n, panic)

  unfoldable pub listen : Bytes → N → N × Result L
  listen addr n = bind (sockets.resolve addr) n

  abbrev pub opened : Config → N × Result L → N × Result (Frontend L)
  opened cfg (n, ok l) = (n, ok (record { cfg = cfg; socket = l; closing = false }))
  opened cfg (n, err e) = (n, err e)
  opened cfg (n, Result.panic) = (n, panic)

  -- `generated` is the key that Validate draws where none is configured.
  unfoldable pub new_frontend : Bytes → Config → N → N × Result (Frontend L)
  unfolding listen
  new_frontend generated provided n =
      let cfg = validate generated provided in opened cfg (listen cfg.addr n)

  unfoldable pub stop : StopFunc (Frontend L × N)
  unfolding done
  stop (f, n) = if f.closing then ((f, n), some already_stopped) else (
    (record f { closing = true }, (sockets.close f.socket (sockets.end_reads f.socket n)).0),
    some (done ((sockets.close f.socket (sockets.end_reads f.socket n)).1 ∷ [])),
  )
