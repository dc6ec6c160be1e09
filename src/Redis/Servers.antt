-- ===== src/Redis/Servers.antt =====
-- A Redis server as the store uses it: the interface, and the documented behaviour of its commands.
use chihaya.Base.{
  ℕ, ◌≡◌, ◌&&◌, Bytes, bytes_eq, List, [], ◌∷◌, Option, none, some, is_some, Result, ok, ℤ, pos,
  ◌+ℤ◌, neg, if◌then◌else◌,
}

-- The commands that write.
pub data Command : Type 0 where
  hset : Bytes → Bytes → Bytes → Command
  hdel : Bytes → Bytes → Command
  add_to : Bytes → ℤ → Command

-- `INCR`, `DECR` and `DECRBY` are sums.
abbrev pub incr : Bytes → Command
incr k = add_to k (pos 1)

abbrev pub decr : Bytes → Command
decr k = add_to k (neg (pos 1))

-- The methods take one command, or several between MULTI and EXEC, and get their replies.
pub record Server (V : Type 0) : Type 0 where
  pub exec : V → List Command → V × Result (List ℤ)
  pub hkeys : V → Bytes → Result (List Bytes)
  pub hlen : V → Bytes → Result ℕ
  -- Each field with its value behind it.
  pub hgetall : V → Bytes → Result (List Bytes)
  -- `none` for a counter that is not there.
  pub get : V → Bytes → Result (Option ℤ)
  -- If a watched key changes, EXEC does nothing and is an error.
  pub watch : V → Bytes → V × Result (Unit {0})
  pub unwatch : V → V × Result (Unit {0})

-- The fields of the hashes and the counters, as functions.
abbrev pub Fields : Type 0
Fields = Bytes → Bytes → Option Bytes

abbrev pub Counters : Type 0
Counters = Bytes → ℤ

-- HSET and HDEL reply with the number of fields that are new, or that are gone.
abbrev pub fields_after : Command → Fields → Fields
fields_after (hset k f x) m j g = if bytes_eq k j && bytes_eq f g then some x else m j g
fields_after (hdel k f) m j g = if bytes_eq k j && bytes_eq f g then none else m j g
fields_after (add_to k n) m j g = m j g

abbrev pub counters_after : Command → Counters → Counters
counters_after (hset k f x) c j = c j
counters_after (hdel k f) c j = c j
counters_after (add_to k n) c j = if bytes_eq k j then c j +ℤ n else c j

abbrev pub reply_of : Command → Fields → Counters → ℤ
reply_of (hset k f x) m c = if is_some (m k f) then pos 0 else pos 1
reply_of (hdel k f) m c = if is_some (m k f) then pos 1 else pos 0
reply_of (add_to k n) m c = c k +ℤ n

abbrev pub all_fields : List Command → Fields → Fields
all_fields [] m = m
all_fields (c ∷ cs) m = all_fields cs (fields_after c m)

abbrev pub all_counters : List Command → Counters → Counters
all_counters [] c = c
all_counters (d ∷ ds) c = all_counters ds (counters_after d c)

abbrev pub replies : List Command → Fields → Counters → List ℤ
replies [] m c = []
replies (d ∷ ds) m c = reply_of d m c ∷ replies ds (fields_after d m) (counters_after d c)

-- A server that answers: each command has its documented effect and reply.
pub record Laws {V : Type 0} (server : Server V) : Type 0 where
  pub fields : V → Fields
  pub counters : V → Counters
  pub exec_replies :
      (v : V) (cs : List Command) → (server.exec v cs).1 ≡ ok (replies cs (fields v) (counters v))
  pub exec_fields :
      (v : V) (cs : List Command) (k f : Bytes)
      → fields (server.exec v cs).0 k f ≡ all_fields cs (fields v) k f
  pub exec_counters :
      (v : V) (cs : List Command) (k : Bytes)
      → counters (server.exec v cs).0 k ≡ all_counters cs (counters v) k
