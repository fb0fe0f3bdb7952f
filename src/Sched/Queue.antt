-- ===== src/Sched/Queue.antt =====
-- `enqueue_ready` and `dequeue_ready`: a singly linked list with a tail pointer.
use utms.Base.{ℕ, Option, none, some, if◌then◌else◌}
use utms.Sched.State.{Sched, ready, is, at, put}

-- `p->next = q`
abbrev pub link : ℕ → Option ℕ → Sched → Sched
link i q s = put i (record (at s i) { next = q }) s

abbrev pub append_at : Option ℕ → ℕ → Sched → Sched
append_at none i s = s
append_at (some t) i s = record (link t (some i) s) { ready_queue_tail = some i }

-- Behind the tail of a queue that is not empty. (An empty tail does not occur there.)
abbrev pub append : ℕ → Sched → Sched
append i s = elim s.ready_queue [
  | none ↦ record s { ready_queue = some i; ready_queue_tail = some i }
  | some h ↦ append_at s.ready_queue_tail i s
]

unfoldable pub enqueue_ready : ℕ → Sched → Sched
enqueue_ready i s = if is (at s i).state ready then append i (link i none s) else s

-- The queue without its head `i`.
abbrev pub pop : ℕ → Sched → Sched
pop i s = link i none (record s {
  ready_queue = (at s i).next;
  ready_queue_tail = elim (at s i).next [ none ↦ none | some j ↦ s.ready_queue_tail ];
})

unfoldable pub dequeue_ready : Sched → Sched × Option ℕ
dequeue_ready s = elim s.ready_queue [ none ↦ (s, none) | some i ↦ (pop i s, some i) ]
