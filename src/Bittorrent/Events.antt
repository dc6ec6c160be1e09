-- ===== src/Bittorrent/Events.antt =====
-- Announce events and their names (bittorrent/event.go).
use chihaya.Base.{
  ℕ, ◌+◌, ◌&&◌, leb, Bytes, codes, bytes_eq, map, Result, ok, err, panic, Error, internal_error,
  if◌then◌else◌, [],
}
use chihaya.Bittorrent.{Event, none_event, started, stopped, completed, other_event}

abbrev pub err_unknown_event : Error
err_unknown_event = internal_error (codes "unknown event")

-- `strings.ToLower` on ASCII. A name of an event has no other letter, and no letter beyond ASCII
-- has one of theirs for its lower case.
abbrev lower_byte : ℕ → ℕ
lower_byte c = if leb b'A' c && leb c b'Z' then c + 32 else c

unfoldable pub to_lower : Bytes → Bytes
to_lower s = map lower_byte s

-- The map `stringToEvent`, which `init` fills.
string_to_event : Bytes → Result Event
string_to_event s =
    if bytes_eq s []
    then ok none_event
    else if bytes_eq s (codes "none")
    then ok none_event
    else if bytes_eq s (codes "started")
    then ok started
    else if bytes_eq s (codes "stopped")
    then ok stopped
    else if bytes_eq s (codes "completed")
    then ok completed
    else err err_unknown_event

unfoldable pub new_event : Bytes → Result Event
unfolding string_to_event to_lower
new_event s = string_to_event (to_lower s)

-- `Event.String` panics where there is no name.
unfoldable pub event_string : Event → Result Bytes
event_string none_event = ok (codes "none")
event_string started = ok (codes "started")
event_string stopped = ok (codes "stopped")
event_string completed = ok (codes "completed")
event_string (other_event n) = panic
