-- ===== src/Event.antt =====
-- dtutils/dt_event.c: services with lists of events, and the transport of each event from the main
-- service, the first of the list, to the service with the event's id. The lists that the `next`
-- fields form are lists of values. The locks are left out: each operation holds its lock
-- throughout.
pub mod Deliver
mod Tests
use dtplayer_c.Base.{
  ℕ, ◌+◌, ◌-◌, Bool, true, false, Option, none, some, List, [], ◌∷◌, ◌++◌, ltb, ◌==◌, if◌then◌else◌,
  ◌>>=◌, ℤ, pos, negsuc, length,
}

-- `event_t`
pub record Event : Type 0 where
  pub type : ℕ
  pub service_id : ℕ

-- `service_t`
pub record Service : Type 0 where
  pub name : List ℕ
  pub id : ℕ
  pub event : List Event
  pub event_count : ℕ

-- `dt_service_mgt_t`
pub record Manager : Type 0 where
  pub service : List Service
  pub service_count : ℕ
  pub exit_flag : Bool

abbrev pub max_name_len : ℕ
max_name_len = 1024

-- "Unkown"
abbrev pub unknown_name : List ℕ
unknown_name = 85 ∷ 110 ∷ 107 ∷ 111 ∷ 119 ∷ 110 ∷ []

-- The first argument says whether `malloc` succeeds.
pub dt_alloc_service : Bool → ℕ → List ℕ → Option Service
dt_alloc_service false id name = none
dt_alloc_service true id name = some (record {
  name = if ltb (length name) max_name_len then name else unknown_name;
  id = id;
  event = [];
  event_count = 0;
})

-- The loop of `dt_register_service`: it stops at the last entry, and does not look at its id.
pub is_taken : ℕ → List Service → Bool
is_taken id [] = false
is_taken id (s ∷ []) = false
is_taken id (s ∷ t ∷ rest) =
    let later = is_taken id (t ∷ rest) in if s.id == id then true else later

-- `service` is not in the list. An empty list with a positive count is a fault.
pub dt_register_service : Manager → Service → Option (ℤ × Manager)
dt_register_service mgt service =
    if mgt.service_count == 0
    then some (pos 0, record mgt { service = service ∷ []; service_count = 1 })
    else elim mgt.service [
      | [] ↦ none
      | entry ∷ rest ↦
          if is_taken service.id (entry ∷ rest)
          then some (negsuc 0, mgt)
          else some (
            pos 0,
            record mgt {
              service = (entry ∷ rest) ++ (service ∷ []);
              service_count = mgt.service_count + 1;
            },
          )
    ]

-- Behind the last event. A positive count with no event is a fault.
pub append_event : Event → List Event → Option (List Event)
append_event e [] = none
append_event e (entry ∷ rest) = some ((entry ∷ rest) ++ (e ∷ []))

pub dt_add_event : Event → Service → Option (ℤ × Service)
dt_add_event e service =
    if service.event_count == 0
    then some (pos 0, record service { event = e ∷ []; event_count = service.event_count + 1 })
    else do
      events ← append_event e service.event
      some (pos 0, record service { event = events; event_count = service.event_count + 1 })

-- The main service is the first.
pub dt_send_event : Manager → Event → Option (ℤ × Manager)
dt_send_event mgt e = elim mgt.service [
  | [] ↦ some (negsuc 0, mgt)
  | hub ∷ rest ↦ do
    (ret, hub') ← dt_add_event e hub
    some (ret, record mgt { service = hub' ∷ rest })
]

pub dt_peek_event : Service → Option Event
dt_peek_event service =
    if ltb 0 service.event_count then elim service.event [ [] ↦ none | e ∷ es ↦ some e ] else none

-- The oldest event, if there is one.
pub dt_get_event : Service → Option (Option Event × Service)
dt_get_event service =
    if ltb 0 service.event_count
    then elim service.event [
      | [] ↦ none
      | e ∷ es ↦ some (some e, record service { event = es; event_count = service.event_count - 1 })
    ]
    else some (none, service)

-- The search of `dt_transport_event`, with the call of `dt_add_event` at its end.
pub transport_to : Event → List Service → Option (ℤ × List Service)
transport_to e [] = some (negsuc 0, [])
transport_to e (s ∷ rest) = elim (s.id == e.service_id) [
  | true ↦ do (ret, s') ← dt_add_event e s; some (ret, s' ∷ rest)
  | false ↦ do (ret, rest') ← transport_to e rest; some (ret, s ∷ rest')
]

-- The first entry is read without a test.
pub dt_transport_event : Event → Manager → Option (ℤ × Manager)
dt_transport_event e mgt = elim mgt.service [
  | [] ↦ none
  | s ∷ rest ↦ do
    (ret, services) ← transport_to e (s ∷ rest)
    some (ret, record mgt { service = services })
]

pub dt_send_event_sync : Manager → Event → Option (ℤ × Manager)
dt_send_event_sync mgt e = elim mgt.service [
  | [] ↦ some (negsuc 0, mgt)
  | s ∷ rest ↦ do (_, mgt') ← dt_transport_event e mgt; some (pos 0, mgt')
]

-- One round of `event_transport_loop`: it ends, sleeps or passes an event on.
pub data Round : Type 0 where
  quit slept : Round
  passed : Event → Round

pub transport_round : Manager → Option (Round × Manager)
transport_round mgt = if mgt.exit_flag then some (quit, mgt) else elim mgt.service [
  | [] ↦ none
  | hub ∷ rest ↦ do
    (got, hub') ← dt_get_event hub
    let mgt' : Manager = record mgt { service = hub' ∷ rest }
    elim got [
      | none ↦ some (slept, mgt')
      | some e ↦ do (_, mgt'') ← dt_transport_event e mgt'; some (passed e, mgt'')
    ]
]
