-- ===== src/Event/Deliver.antt =====
-- An event reaches the service with its id, behind the events that wait there.
use dtplayer_c.Base.{
  ℕ, ◌+◌, ◌≡◌, refl, sym, ap, inl, inr, Bool, true, false, ◌&&◌, ◌||◌, if◌then◌else◌, Bool-cases,
  ◌⊎◌, ◌==◌, Option, some, List, [], ◌∷◌, ◌++◌, arith, ℤ, pos, negsuc, length, length-append,
  eq-nil, ltb, ◌-◌,
}
use dtplayer_c.Event.{
  Event, Service, Manager, append_event, dt_add_event, transport_to, dt_transport_event,
  dt_get_event, transport_round, passed, dt_register_service, is_taken,
}

-- The counter of a service is the number of its events.
abbrev pub Counted : Service → Type 0
Counted s = s.event_count ≡ length s.event

abbrev pub AllCounted : List Service → Type 0
AllCounted [] = Unit {0}
AllCounted (s ∷ rest) = Counted s × AllCounted rest

-- A service with this id is registered.
abbrev pub registered : ℕ → List Service → Bool
registered id [] = false
registered id (s ∷ rest) = (s.id == id) || registered id rest

-- The events that wait at the first service with this id.
abbrev pub inbox : ℕ → List Service → List Event
inbox id [] = []
inbox id (s ∷ rest) = if s.id == id then s.event else inbox id rest

append_event-some :
    (e : Event) (es : List Event) (n : ℕ)
    → n ≡ length es
    → (n == 0) ≡ false
    → append_event e es ≡ some (es ++ (e ∷ []))
unfolding append_event
append_event-some e [] n c z = absurd (ground arith)
append_event-some e (x ∷ es) n c z = refl

-- The service with one more event behind the others.
abbrev pub with_event : Event → Service → Service
with_event e s = record s { event = s.event ++ (e ∷ []); event_count = s.event_count + 1 }

dt_add_event_lem :
    (e : Event) (s : Service) → Counted s → dt_add_event e s ≡ some (pos 0, with_event e s)
unfolding dt_add_event
dt_add_event_lem e s c = elim (Bool-cases (s.event_count == 0)) [
  | inl z ↦
      let nil : s.event ≡ [] = eq-nil s.event (ground arith) in
      rw z (
        ap
          (λ es. some (pos 0, record s { event = es ++ (e ∷ []); event_count = s.event_count + 1 }))
          (sym nil))
  | inr z ↦ rw (z, append_event-some e s.event s.event_count c z) refl
]

with_event-Counted : (e : Event) (s : Service) → Counted s → Counted (with_event e s)
with_event-Counted e s c = omega (arith, length-append s.event (e ∷ []))

-- The event is behind the others at the first service with its id, and every other service is as it was;
-- where there is none, nothing has changed.
abbrev pub Placed : Event → List Service → List Service → Type 0
Placed e ss ss' =
    ((registered e.service_id ss ≡ false) × (ss' ≡ ss))
    ⊎ ((front : List Service) × (s : Service) × (back : List Service) × (ss ≡ front ++ (s ∷ back))
        × (registered e.service_id front ≡ false)
        × ((s.id == e.service_id) ≡ true)
        × (ss' ≡ front ++ (with_event e s ∷ back)))

Placed-behind :
    (e : Event) (s : Service) (ss ss' : List Service)
    → (s.id == e.service_id) ≡ false
    → Placed e ss ss'
    → Placed e (s ∷ ss) (s ∷ ss')
Placed-behind e s ss ss' away (inl (none_is, same)) =
    inl (simp (away, none_is) refl, ap (λ (l : List Service). s ∷ l) same)
Placed-behind e s ss ss' away (inr (front, t, back, split, none_is, here, placed)) = inr (
  s ∷ front,
  t,
  back,
  ap (λ (l : List Service). s ∷ l) split,
  simp (away, none_is) refl,
  here,
  ap (λ (l : List Service). s ∷ l) placed,
)

-- What the transport of `e` leaves: its status, and at each id the events that wait.
abbrev pub Delivered : Event → List Service → Option (ℤ × List Service) → Type 0
Delivered e ss r =
    (ss' : List Service) × (r
      ≡ some ((if registered e.service_id ss then pos 0 else negsuc 0), ss'))
    × AllCounted ss'
    × ((id : ℕ)
        → inbox id ss' ≡ (
            if registered e.service_id ss && (id == e.service_id)
            then inbox id ss ++ (e ∷ [])
            else inbox id ss))
    × Placed e ss ss'

-- Where the counters are right, the transport of an event always returns. It puts the event behind
-- those that wait at the first service with its id and changes no other service; if there is none,
-- it fails and the event is dropped. The counters stay right.
pub transport_to-Delivered :
    (e : Event) (ss : List Service) → AllCounted ss → Delivered e ss (transport_to e ss)
unfolding transport_to
transport_to-Delivered e [] c = ([], refl, tt, (λ id. refl), inl (refl, refl))
transport_to-Delivered e (s ∷ rest) (c, cs) = elim (Bool-cases (s.id == e.service_id)) [
  | inl here ↦ (
    with_event e s ∷ rest,
    rw (here, transport_to) (rw (dt_add_event_lem e s c) refl),
    (with_event-Counted e s c, cs),
    (λ id. ground arith),
    inr ([], s, rest, refl, refl, here, refl),
  )
  | inr away ↦
      let (ss', r, cs', i, placed) = transport_to-Delivered e rest cs in
      (
        s ∷ ss',
        rw (away, transport_to) (rw r refl),
        (c, cs'),
        (λ id. ground (arith, i id)),
        Placed-behind e s rest ss' away placed,
      )
]

-- The main service without its oldest event.
abbrev pub taken : Service → List Event → Service
taken hub es = record hub { event = es; event_count = hub.event_count - 1 }

dt_get_event_lem :
    (hub : Service) (e : Event) (es : List Event)
    → Counted hub
    → hub.event ≡ e ∷ es
    → dt_get_event hub ≡ some (some e, taken hub es)
unfolding dt_get_event
dt_get_event_lem hub e es c is_next =
    let some_left : ltb 0 hub.event_count ≡ true = ground (arith, ap length is_next) in
    simp (some_left, is_next)

-- Where the counters are right, one round of the transport loop takes the oldest event of the main
-- service and puts it behind those that wait at the first service with its id, or drops it where
-- there is none. No other service changes, and the counters stay right.
pub transport_round-Delivered :
    (mgt : Manager) (hub : Service) (rest : List Service) (e : Event) (es : List Event)
    → mgt.exit_flag ≡ false
    → mgt.service ≡ hub ∷ rest
    → AllCounted (hub ∷ rest)
    → hub.event ≡ e ∷ es
    → (ss' : List Service) × (transport_round mgt ≡ some (passed e, record mgt { service = ss' }))
      × AllCounted ss'
      × ((id : ℕ)
          → inbox id ss' ≡ (
              if registered e.service_id (taken hub es ∷ rest) && (id == e.service_id)
              then inbox id (taken hub es ∷ rest) ++ (e ∷ [])
              else inbox id (taken hub es ∷ rest)))
      × Placed e (taken hub es ∷ rest) ss'
unfolding transport_round dt_transport_event
transport_round-Delivered mgt hub rest e es on services (c, cs) is_next =
    let g = dt_get_event_lem hub e es c is_next in
    let left : Counted (taken hub es) = omega (arith, ap length is_next) in
    let (ss', r, cs', i, placed) = transport_to-Delivered e (taken hub es ∷ rest) (left, cs) in
    (ss', simp (on, services, g, r), cs', i, placed)

-- A service with the id of the service registered last is accepted, here where there is one so far.
-- Events for the id then go to the older service, and never to the new one.
dt_register_service-shadowed :
    (mgt : Manager) (old new : Service) (e : Event)
    → mgt.service ≡ old ∷ []
    → mgt.service_count ≡ 1
    → Counted old
    → new.id ≡ old.id
    → e.service_id ≡ new.id
    → (dt_register_service mgt new
        ≡ some (pos 0, record mgt { service = old ∷ new ∷ []; service_count = 2 }))
      × (transport_to e (old ∷ new ∷ []) ≡ some (pos 0, with_event e old ∷ new ∷ []))
unfolding dt_register_service is_taken transport_to
dt_register_service-shadowed mgt old new e services one c same for_new =
    let here : (old.id == e.service_id) ≡ true = ground arith in
    (simp (one, services), rw (here, transport_to) (rw (dt_add_event_lem e old c) refl))
