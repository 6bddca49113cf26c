-- ===== src/DataQueue/Tests.antt =====
-- Runs of dtutils/dt_queue.c on a heap of four cells, and its theorems at them.
use dtplayer_c.Base.{
  ◌≡◌, refl, true, false, none, some, List, [], ◌∷◌, Bool, if◌then◌else◌, ◌==◌, arith,
}
use dtplayer_c.Heap.{Ptr, null}
use dtplayer_c.Heap.Chain.{Cells}
use dtplayer_c.DataQueue.{
  data_node, DataQueue, Memory, write_cell, load, set_next, set_prev, set_next_if, set_prev_if,
  free, write_new, queue_pop_head, queue_pop_tail, queue_pre_pop_head, queue_push_head,
  queue_push_tail, queue_pop_nth, queue_push_nth, queue_flush,
}
use dtplayer_c.DataQueue.Ends.{IsDataQueue}
use dtplayer_c.DataQueue.Run.{
  Call, push_head, push_tail, pop_head, pop_tail, pre_pop_head, step, run, run-DoesAll, is_enough,
  has_memory, all_on_list, on_list, take_last, values, Allocates, DoesAll,
}
use dtplayer_c.DataQueue.Inside.{queue_pop_nth-faults}
use dtplayer_c.DataQueue.Flush.{queue_flush-Emptied, Emptied}
use dtplayer_c.DataQueue.Insert.{queue_push_nth-Inserted, Inserted}

abbrev is_used : Memory → Ptr → Bool
is_used h p = elim (h p) [ none ↦ false | some _ ↦ true ]

-- The first of four addresses that is not in use.
abbrev first_free : Memory → Ptr
first_free h =
    if is_used h 1
    then (if is_used h 2 then (if is_used h 3 then (if is_used h 4 then 0 else 4) else 3) else 2)
    else 1

first_free-Allocates : Allocates first_free
first_free-Allocates h ne = ground arith

-- Three nodes for the pointers 16, 32 and 48.
abbrev three_nodes : Memory
three_nodes p =
    if p == 1
    then some (data_node 16 2 null)
    else if p == 2
    then some (data_node 32 3 1)
    else if p == 3
    then some (data_node 48 null 2)
    else none

abbrev three_cells : Cells Ptr
three_cells = (1, 16) ∷ (2, 32) ∷ (3, 48) ∷ []

abbrev three_queued : DataQueue
three_queued = record { head = 1; tail = 3; length = 3 }

three_queued-IsDataQueue : IsDataQueue three_nodes three_cells three_queued
three_queued-IsDataQueue = record {
  links = (
    ground arith,
    refl,
    (ground arith, (ground arith, tt)),
    (ground arith, refl, (ground arith, tt), (ground arith, refl, tt, tt)),
  );
  head_is = refl;
  tail_is = refl;
  count = refl;
}

abbrev calls : List Call
calls = push_head 8 ∷ pop_tail ∷ push_tail 64 ∷ pre_pop_head ∷ pop_head ∷ pop_head ∷ []

run-calls : all_on_list calls (values three_cells) ≡ (0 ∷ 48 ∷ 0 ∷ 8 ∷ 8 ∷ 16 ∷ [], 32 ∷ 64 ∷ [])
unfolding all_on_list on_list take_last
run-calls = refl

enough_memory : is_enough first_free calls three_queued three_nodes ≡ true
unfolding is_enough has_memory step queue_push_head queue_push_tail queue_pop_head queue_pop_tail
    queue_pre_pop_head write_new set_prev_if set_next_if set_prev set_next load free write_cell
enough_memory = refl

run-DoesAll_example :
    DoesAll (all_on_list calls (values three_cells)) (run first_free calls three_queued three_nodes)
run-DoesAll_example =
    run-DoesAll first_free first_free-Allocates calls three_cells enough_memory
      three_queued-IsDataQueue

queue_pop_nth-faults_example : queue_pop_nth three_queued 3 three_nodes ≡ none
queue_pop_nth-faults_example =
    queue_pop_nth-faults 2 three_cells (omega arith) refl three_queued-IsDataQueue

queue_push_nth-Inserted_example :
    Inserted 2 64 (values three_cells) (queue_push_nth first_free three_queued 64 3 three_nodes)
queue_push_nth-Inserted_example =
    queue_push_nth-Inserted first_free 64 (ground arith) refl 2 three_cells (omega arith)
      (omega arith) three_queued-IsDataQueue

queue_flush-Emptied_example :
    Emptied three_nodes three_cells (48 ∷ 32 ∷ 16 ∷ []) (queue_flush three_queued three_nodes)
queue_flush-Emptied_example =
    queue_flush-Emptied three_cells three_queued-IsDataQueue
      (ground arith, (ground arith, (ground arith, tt)))
