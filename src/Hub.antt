-- ===== src/Hub.antt =====
-- backend/internal/handler/ws/ws.go: the hub of the sockets. A run is a sequence of the steps of its
-- goroutines: a socket comes or goes, an event of Redis goes into the channel, or the loop `run`
-- writes the first event of the channel to all clients. The socket library is a parameter: it says
-- which writes succeed.
pub mod Ordered
use codity_assignment.Base.{
  refl, List, ℕ, Option, [], if◌then◌else◌, where_rows, Bool, String, some, ◌&&◌, not, ltb, any_row,
  none, ◌≡◌, ◌==◌, ◌∷◌, length, map, ◌++◌, true, false,
}

-- `inbox` is what was written to the socket; a socket that is closed takes no more.
pub record Client : Type 0 where
  pub conn : ℕ
  pub is_open : Bool
  pub inbox : List String

pub record Hub : Type 0 where
  pub clients : List Client
  pub channel : List String

pub data HubEvent : Type 0 where
  arrive depart : ℕ → HubEvent
  publish : String → HubEvent
  broadcast : (ℕ → Bool) → HubEvent

abbrev pub has_conn : ℕ → Client → Bool
has_conn c o = o.conn == c

-- `h.clients[c] = true`, which changes nothing where the key is there.
unfoldable pub add_client : ℕ → List Client → List Client
add_client c os =
    if any_row (has_conn c) os
    then os
    else os ++ record { conn = c; is_open = true; inbox = [] } ∷ []

-- `delete(h.clients, c)`.
unfoldable pub remove_client : ℕ → List Client → List Client
remove_client c os = where_rows (λ o. not (has_conn c o)) os

-- WriteMessage; the socket is closed if it fails, and stays among the clients.
unfoldable pub write_message : (ℕ → Bool) → String → Client → Client
write_message writes m o =
    if o.is_open && writes o.conn
    then record o { inbox = o.inbox ++ m ∷ [] }
    else record o { is_open = false }

unfoldable pub broadcast_next : (ℕ → Bool) → List String → Hub → Option Hub
unfolding write_message
broadcast_next writes [] h = none
broadcast_next writes (m ∷ ms) h =
    some (record h { clients = map (write_message writes m) h.clients; channel = ms })

-- The channel holds 256 events; a send to a full one waits.
unfoldable pub fire_hub : HubEvent → Hub → Option Hub
unfolding add_client remove_client broadcast_next
fire_hub (arrive c) h = some (record h { clients = add_client c h.clients })
fire_hub (depart c) h = some (record h { clients = remove_client c h.clients })
fire_hub (publish m) h =
    if ltb (length h.channel) 256 then some (record h { channel = h.channel ++ m ∷ [] }) else none
fire_hub (broadcast writes) h = broadcast_next writes h.channel h

pub data HubTrace : Hub → List HubEvent → Hub → Type 0 where
  hub_still : {h : Hub} → HubTrace h [] h
  hub_after :
      {h k l : Hub} (e : HubEvent) {es : List HubEvent}
      → fire_hub e h ≡ some k
      → HubTrace k es l
      → HubTrace h (e ∷ es) l

-- The events that come from Redis.
abbrev pub published_by : HubEvent → List String
published_by (publish m) = m ∷ []
published_by _ = []

unfoldable pub published : List HubEvent → List String
published [] = []
published (e ∷ es) = published_by e ++ published es
