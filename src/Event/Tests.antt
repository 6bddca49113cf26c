-- ===== src/Event/Tests.antt =====
-- Runs of dtutils/dt_event.c with three services, and its theorems at them.
use dtplayer_c.Base.{
  ℕ, ◌≡◌, refl, true, false, ◌&&◌, if◌then◌else◌, ◌==◌, Option, none, some, ◌>>=◌, List, [], ◌∷◌,
  ◌++◌, ℤ, pos, length,
}
use dtplayer_c.Event.{
  Event, Service, Manager, Round, passed, slept, dt_alloc_service, dt_register_service, is_taken,
  append_event, dt_add_event, dt_send_event, dt_send_event_sync, dt_peek_event, dt_get_event,
  transport_to, dt_transport_event, transport_round,
}
use dtplayer_c.Event.Deliver.{
  AllCounted, Placed, registered, inbox, taken, transport_round-Delivered,
}

abbrev event_of : ℕ → ℕ → Event
event_of type id = record { type = type; service_id = id }

abbrev service_of : ℕ → List Event → Service
service_of id es = record { name = []; id = id; event = es; event_count = length es }

abbrev manager_of : List Service → Manager
manager_of ss = record { service = ss; service_count = length ss; exit_flag = false }

-- Three events sent to the main service, one of them to nobody; then four rounds of the loop.
rounds : Option (List Round × Option Event × List ℤ)
rounds = do
  main ← dt_alloc_service true 0 (77 ∷ [])
  audio ← dt_alloc_service true 1 (65 ∷ [])
  (r1, m1) ← dt_register_service (manager_of []) main
  (r2, m2) ← dt_register_service m1 audio
  (r3, m3) ← dt_send_event m2 (event_of 5 1)
  (r4, m4) ← dt_send_event m3 (event_of 6 9)
  (r5, m5) ← dt_send_event m4 (event_of 7 1)
  (r6, m6) ← dt_send_event_sync m5 (event_of 4 1)
  (a, m7) ← transport_round m6
  (b, m8) ← transport_round m7
  (c, m9) ← transport_round m8
  (d, m10) ← transport_round m9
  oldest ← elim m10.service [ [] ↦ none | _ ∷ [] ↦ none | _ ∷ s ∷ _ ↦ some (dt_peek_event s) ]
  some (a ∷ b ∷ c ∷ d ∷ [], oldest, r1 ∷ r2 ∷ r3 ∷ r4 ∷ r5 ∷ r6 ∷ [])

rounds-ok :
    rounds
    ≡ some (
      passed (event_of 5 1) ∷ passed (event_of 6 9) ∷ passed (event_of 7 1) ∷ slept ∷ [],
      some (event_of 4 1),
      pos 0 ∷ pos 0 ∷ pos 0 ∷ pos 0 ∷ pos 0 ∷ pos 0 ∷ [],
    )
unfolding rounds dt_alloc_service dt_register_service is_taken append_event dt_add_event
    dt_send_event dt_send_event_sync dt_peek_event dt_get_event transport_to dt_transport_event
    transport_round
rounds-ok = refl

abbrev hub : Service
hub = service_of 0 (event_of 5 1 ∷ event_of 6 9 ∷ [])

transport_round-Delivered_example :
    (ss' : List Service) × (transport_round (manager_of (hub ∷ service_of 1 [] ∷ []))
      ≡ some (
        passed (event_of 5 1),
        record (manager_of (hub ∷ service_of 1 [] ∷ [])) { service = ss' },
      ))
    × AllCounted ss'
    × ((id : ℕ)
        → inbox id ss' ≡ (
            if registered 1 (taken hub (event_of 6 9 ∷ []) ∷ service_of 1 [] ∷ []) && (id == 1)
            then inbox id (taken hub (event_of 6 9 ∷ []) ∷ service_of 1 [] ∷ [])
              ++ (event_of 5 1 ∷ [])
            else inbox id (taken hub (event_of 6 9 ∷ []) ∷ service_of 1 [] ∷ [])))
    × Placed (event_of 5 1) (taken hub (event_of 6 9 ∷ []) ∷ service_of 1 [] ∷ []) ss'
transport_round-Delivered_example =
    transport_round-Delivered (manager_of (hub ∷ service_of 1 [] ∷ [])) hub (service_of 1 [] ∷ [])
      (event_of 5 1) (event_of 6 9 ∷ []) refl refl (refl, (refl, tt)) refl
