-- ===== src/Udp/Sockets/Closed.antt =====
-- Which sockets are open while the UDP frontend starts and when it has stopped
-- (frontend/udp/frontend.go).
use chihaya.Base.{◌≡◌, refl, ◌∙◌, Bytes, List, [], ◌∷◌, some, Error, Result, ok, err}
use chihaya.Support.Stops.{already_stopped, done}
use chihaya.Udp.Configs.{Config, validate}
use chihaya.Udp.Sockets.{Sockets, Frontend, bind, listen, opened, new_frontend, stop}

-- A socket that was opened is open until it is closed.
pub record Laws {N A L : Type 0} (sockets : Sockets N A L) : Type 0 where
  pub open_ones : N → List L
  pub listen_ok :
      (a : A) (n : N) (l : L)
      → (sockets.listen_udp a n).1 ≡ ok l
      → open_ones (sockets.listen_udp a n).0 ≡ l ∷ open_ones n
  pub listen_err :
      (a : A) (n : N) (e : Error)
      → (sockets.listen_udp a n).1 ≡ err e
      → open_ones (sockets.listen_udp a n).0 ≡ open_ones n
  pub end_reads_same : (l : L) (n : N) → open_ones (sockets.end_reads l n) ≡ open_ones n
  pub close_last :
      (l : L) (n : N) (rest : List L)
      → open_ones n ≡ l ∷ rest
      → open_ones (sockets.close l n).0 ≡ rest

module _ {N A L : Type 0} (sockets : Sockets N A L) (laws : Laws sockets) where
  open laws use {open_ones, listen_ok, listen_err, end_reads_same, close_last}

  -- One more socket, or none.
  abbrev pub Binds : N → N × Result L → Type 0
  Binds n (n', ok l) = open_ones n' ≡ l ∷ open_ones n
  Binds n (n', err e) = open_ones n' ≡ open_ones n
  Binds n (n', Result.panic) = Unit {0}

  Binds-of :
      (n : N) (o : N × Result L)
      → ((l : L) → o.1 ≡ ok l → open_ones o.0 ≡ l ∷ open_ones n)
      → ((e : Error) → o.1 ≡ err e → open_ones o.0 ≡ open_ones n)
      → Binds n o
  Binds-of n (n', ok l) a b = a l refl
  Binds-of n (n', err e) a b = b e refl
  Binds-of n (n', Result.panic) a b = tt

  bind-Binds : (r : Result A) (n : N) → Binds n (bind sockets r n)
  bind-Binds (ok a) n = Binds-of n (sockets.listen_udp a n) (listen_ok a n) (listen_err a n)
  bind-Binds (err e) n = refl
  bind-Binds Result.panic n = tt

  -- A frontend with a socket of its own, which a first Stop closes and a second one leaves alone; or
  -- an error and no socket.
  abbrev pub Runs : Config → N → N × Result (Frontend L) → Type 0
  Runs cfg n (n', ok f) =
      (f.cfg ≡ cfg)
      × (open_ones n' ≡ f.socket ∷ open_ones n)
      × (open_ones (stop sockets (f, n')).0.1 ≡ open_ones n)
      × ((stop sockets (f, n')).1
          ≡ some (done ((sockets.close f.socket (sockets.end_reads f.socket n')).1 ∷ [])))
      × (stop sockets (stop sockets (f, n')).0 ≡ ((stop sockets (f, n')).0, some already_stopped))
  Runs cfg n (n', err e) = open_ones n' ≡ open_ones n
  Runs cfg n (n', Result.panic) = Unit {0}

  opened-Runs :
      (cfg : Config) (n : N) (o : N × Result L) → Binds n o → Runs cfg n (opened sockets cfg o)
  unfolding stop
  opened-Runs cfg n (n', ok l) h = (
    refl,
    h,
    close_last l (sockets.end_reads l n') (open_ones n) (end_reads_same l n' ∙ h),
    refl,
    refl,
  )
  opened-Runs cfg n (n', err e) h = h
  opened-Runs cfg n (n', Result.panic) h = tt

  -- A frontend that is made has the validated configuration and one socket more than was open. Its
  -- first Stop closes that socket and gives the error of closing it, if there is one; a second Stop
  -- finds it stopped and changes nothing. Where no frontend is made for an error, no socket is left
  -- open that was not open before.
  pub new_frontend-Runs :
      (generated : Bytes) (provided : Config) (n : N)
      → Runs (validate generated provided) n (new_frontend sockets generated provided n)
  unfolding new_frontend listen
  new_frontend-Runs generated provided n =
      let cfg = validate generated provided in
      opened-Runs cfg n (listen sockets cfg.addr n) (bind-Binds (sockets.resolve cfg.addr) n)
