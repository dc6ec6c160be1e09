-- ===== src/Middleware/Passkeys/Users.antt =====
-- The passkey that middleware/passkeyapproval/passkeyapproval.go checks is the one that
-- middleware/peerlimit/peerlimit.go and middleware/trafficpush/trafficpush.go read behind it.
use chihaya.Base.{◌<◌, ◌≡◌, Bytes, codes, length, Option-cases, ok, inl, inr, arith}
use chihaya.Bittorrent.{AnnounceRequest}
use chihaya.Bittorrent.Params.{or_else}
use chihaya.Middleware.{Context}
use chihaya.Middleware.Limits.{payload_passkey, passkey_of}
use chihaya.Middleware.Passkeys.{
  PasskeyHook, Sealing, decrypt, open_credential, plain_passkey, route_or_query, identify,
}

open_credential-passkey :
    (sealing : Sealing) (key : Bytes) (ctx ctx' : Context) (req : AnnounceRequest) (m : Bytes)
    → open_credential sealing key ctx req ≡ ok (ctx', m)
    → payload_passkey ctx'.payload ≡ m
unfolding open_credential
open_credential-passkey sealing key ctx ctx' req m e =
    let text =
      or_else (route_or_query (codes "credential") ctx req)
        (route_or_query (codes "passkey") ctx req) in
    elim (Option-cases (decrypt sealing key text)) [
      | inl f ↦ absurd (ground arith)
      | inr (p, f) ↦ ground arith
    ]

plain_passkey-passkey :
    (ctx ctx' : Context) (req : AnnounceRequest) (m : Bytes)
    → plain_passkey ctx req ≡ ok (ctx', m)
    → payload_passkey ctx'.payload ≡ m
unfolding plain_passkey
plain_passkey-passkey ctx ctx' req m e = ground arith

identify-passkey :
    (sealing : Sealing) (h : PasskeyHook) (ctx ctx' : Context) (req : AnnounceRequest) (m : Bytes)
    → identify sealing h ctx req ≡ ok (ctx', m)
    → payload_passkey ctx'.payload ≡ m
unfolding identify
identify-passkey sealing h ctx ctx' req m e = elim (Option-cases h.key) [
  | inl f ↦ plain_passkey-passkey ctx ctx' req m (ground arith)
  | inr (key, f) ↦ open_credential-passkey sealing key ctx ctx' req m (ground arith)
]

-- Behind the approval hook the user is the one whose passkey it checked, sealed or plain, if the
-- passkey is not empty: the limit counts that user's peers and the traffic is kept for that user,
-- whatever else the request says.
pub passkey_of-identify :
    (sealing : Sealing) (h : PasskeyHook) (ctx ctx' : Context) (req next : AnnounceRequest)
    (m : Bytes)
    → identify sealing h ctx req ≡ ok (ctx', m)
    → 0 < length m
    → passkey_of ctx' next ≡ m
unfolding passkey_of
passkey_of-identify sealing h ctx ctx' req next m e l =
    ground (arith, identify-passkey sealing h ctx ctx' req m e)
