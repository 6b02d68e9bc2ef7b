-- ===== src/Hub/Ordered.antt =====
-- What a client of the hub is sent.
use mathlib.Core.List.{append_assoc, append-nil}
use codity_assignment.Base.{
  refl, ℕ, first_row, where_rows, List, Bool, String, ◌≡◌, ◌==◌, true, false, some, ◌++◌, map,
  arith, ◌∷◌, [], subst, sym, ◌∙◌, All, ap,
}
use codity_assignment.Hub.{
  add_client, fire_hub, remove_client, HubEvent, write_message, Client, arrive, Hub, depart,
  has_conn, publish, published_by, broadcast, published, broadcast_next, HubTrace, hub_after,
  hub_still,
}

-- The socket does not go, and the writes to it succeed.
abbrev pub Steady : ℕ → HubEvent → Type 0
Steady c (arrive d) = Unit
Steady c (depart d) = (d == c) ≡ false
Steady c (publish m) = Unit
Steady c (broadcast writes) = writes c ≡ true

-- The client with the socket, open, and what it has been sent.
abbrev pub Sent : ℕ → List String → Hub → Type 0
Sent c inbox h =
    first_row (has_conn c) h.clients ≡ some (record { conn = c; is_open = true; inbox = inbox })

first_append :
    (c : ℕ) (os : List Client) (x y : Client)
    → first_row (has_conn c) os ≡ some x
    → first_row (has_conn c) (os ++ y ∷ []) ≡ some x
unfolding first_row
first_append c [] x y h = absurd (cc)
first_append c (o ∷ os) x y h = ground (arith, first_append c os x y)

first_add :
    (c d : ℕ) (os : List Client) (x : Client)
    → first_row (has_conn c) os ≡ some x
    → first_row (has_conn c) (add_client d os) ≡ some x
unfolding add_client
first_add c d os x h =
    ground (arith, first_append c os x (record { conn = d; is_open = true; inbox = [] }))

first_remove :
    (c d : ℕ) (os : List Client) (x : Client)
    → (d == c) ≡ false
    → first_row (has_conn c) os ≡ some x
    → first_row (has_conn c) (remove_client d os) ≡ some x
unfolding remove_client where_rows first_row
first_remove c d [] x other h = absurd (cc)
first_remove c d (o ∷ os) x other h = ground (arith, first_remove c d os x other)

first_write :
    (c : ℕ) (writes : ℕ → Bool) (m : String) (os : List Client) (inbox : List String)
    → writes c ≡ true
    → first_row (has_conn c) os ≡ some (record { conn = c; is_open = true; inbox = inbox })
    → first_row (has_conn c) (map (write_message writes m) os)
      ≡ some (record { conn = c; is_open = true; inbox = inbox ++ m ∷ [] })
unfolding first_row write_message
first_write c writes m [] inbox ok h = absurd (cc)
first_write c writes m (o ∷ os) inbox ok h = ground (arith, first_write c writes m os inbox ok)

-- One step: what is sent and waits is what was, and what is published.
abbrev Grown : ℕ → HubEvent → List String → Hub → Hub → Type 0
Grown c e inbox h k =
    (more : List String) × Sent c more k
    × (more ++ k.channel ≡ (inbox ++ h.channel) ++ published_by e)

some-injective : {A : Type 0} {x y : A} → some x ≡ some y → x ≡ y
some-injective h = cc

broadcast_effect :
    (c : ℕ) (writes : ℕ → Bool) (l inbox : List String) (h k : Hub)
    → writes c ≡ true
    → Sent c inbox h
    → h.channel ≡ l
    → broadcast_next writes l h ≡ some k
    → Grown c (broadcast writes) inbox h k
unfolding broadcast_next
broadcast_effect c writes [] inbox h k ok sent e f = absurd (cc)
broadcast_effect c writes (m ∷ ms) inbox h k ok sent e f =
    subst (Grown c (broadcast writes) inbox h) (some-injective f) (
      inbox ++ m ∷ [],
      first_write c writes m h.clients inbox ok sent,
      append_assoc inbox (m ∷ []) ms
          ∙ ap (λ l. inbox ++ l) (sym e)
          ∙ sym (append-nil (inbox ++ h.channel)),
    )

step_effect :
    (c : ℕ) (e : HubEvent) (inbox : List String) (h k : Hub)
    → Steady c e
    → Sent c inbox h
    → fire_hub e h ≡ some k
    → Grown c e inbox h k
unfolding fire_hub
step_effect c (arrive d) inbox h k steady sent f =
    subst (Grown c (arrive d) inbox h) (some-injective f)
      (inbox, first_add c d h.clients _ sent, sym (append-nil (inbox ++ h.channel)))
step_effect c (depart d) inbox h k steady sent f =
    subst (Grown c (depart d) inbox h) (some-injective f)
      (inbox, first_remove c d h.clients _ steady sent, sym (append-nil (inbox ++ h.channel)))
step_effect c (publish m) inbox h k steady sent f =
    let moves : record h { channel = h.channel ++ m ∷ [] } ≡ k = ground arith in
    subst (Grown c (publish m) inbox h) moves
      (inbox, sent, sym (append_assoc inbox h.channel (m ∷ [])))
step_effect c (broadcast writes) inbox h k steady sent f =
    broadcast_effect c writes h.channel inbox h k steady sent refl f

-- A client whose socket stays and takes what is written to it is sent every event, once and in the
-- order of their publication: what it has been sent, followed by what waits in the channel, grows by
-- the events published, whoever comes and goes beside it.
pub hub_delivers :
    (c : ℕ) (inbox : List String) (h : Hub) (es : List HubEvent) (k : Hub)
    → Sent c inbox h
    → HubTrace h es k
    → All (Steady c) es
    → (more : List String) × Sent c more k
      × (more ++ k.channel ≡ (inbox ++ h.channel) ++ published es)
unfolding published
hub_delivers c inbox h es k sent hub_still steady =
    (inbox, sent, sym (append-nil (inbox ++ h.channel)))
hub_delivers c inbox h es k sent (hub_after {k = m} e {es = es'} f r) (now, later) =
    let (mid, sent', grown) = step_effect c e inbox h m now sent f in
    let (more, sent'', all) = hub_delivers c mid m es' k sent' r later in
    (
      more,
      sent'',
      all
          ∙ ap (λ l. l ++ published es') grown
          ∙ append_assoc (inbox ++ h.channel) (published_by e) (published es'),
    )
