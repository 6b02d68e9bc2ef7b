-- ===== src/Examples/Sockets.antt =====
-- The theorem on the hub of the sockets at one run.
use codity_assignment.Base.{
  refl, ℕ, List, first_row, true, Bool, ◌∷◌, String, [], ◌==◌, ◌++◌, any_row, ◌≡◌, where_rows,
}
use codity_assignment.Hub.{
  hub_after, hub_still, Client, fire_hub, Hub, add_client, published, HubEvent, publish,
  remove_client, arrive, broadcast_next, broadcast, write_message, depart, HubTrace,
}
use codity_assignment.Hub.Ordered.{Sent, hub_delivers}

abbrev listener : Client
listener = record { conn = 4; is_open = true; inbox = [] }

abbrev one_listener : Hub
one_listener = record { clients = listener ∷ []; channel = [] }

abbrev only_four : ℕ → Bool
only_four n = n == 4

abbrev hub_events : List HubEvent
hub_events = publish "a" ∷ arrive 5 ∷ publish "b" ∷ broadcast only_four ∷ depart 5 ∷ []

abbrev hub_later : Hub
hub_later = record { clients = record listener { inbox = "a" ∷ [] } ∷ []; channel = "b" ∷ [] }

hub_events-HubTrace : HubTrace one_listener hub_events hub_later
unfolding fire_hub add_client remove_client broadcast_next write_message any_row where_rows
hub_events-HubTrace = hub_after (publish "a") refl (
    hub_after (arrive 5) refl (
      hub_after (publish "b") refl
        (hub_after (broadcast only_four) refl (hub_after (depart 5) refl hub_still))))

hub_delivers_example :
    (more : List String) × Sent 4 more hub_later × (more ++ hub_later.channel ≡ "a" ∷ "b" ∷ [])
unfolding first_row published
hub_delivers_example =
    hub_delivers 4 [] one_listener hub_events hub_later refl hub_events-HubTrace
      (tt, (tt, (tt, (refl, (refl, tt)))))
