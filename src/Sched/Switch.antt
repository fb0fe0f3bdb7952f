-- ===== src/Sched/Switch.antt =====
-- `sched_do_switch`: waking, requeueing and the choice of the next process.
use utms.Base.{ℕ, zero, suc, true, false, ◌&&◌, Option, none, some, if◌then◌else◌, ◌==◌, ◌!=◌, leb}
use utms.Sched.State.{Sched, ready, running, is, at, put, max_processes, time_slice}
use utms.Sched.Queue.{link, enqueue_ready, dequeue_ready}

-- `if (sp_prev) sp_prev->next = sp; else sleep_queue = sp;`
unfoldable pub unlink : Option ℕ → Option ℕ → Sched → Sched
unlink none q s = record s { sleep_queue = q }
unlink (some j) q s = link j q s

-- A sleeper leaves the sleep queue and joins the ready queue.
unfoldable pub wake : Option ℕ → ℕ → Sched → Sched
unfolding unlink
wake prev i s =
    let s1 = unlink prev (at s i).next s in
    enqueue_ready i (put i (record (at s1 i) { next = none; state = ready; sleep_until = 0 }) s1)

-- The walk over the sleep queue; the fuel bounds its length.
unfoldable pub wake_sleepers : ℕ → ℕ → Option ℕ → Option ℕ → Sched → Sched
wake_sleepers zero now prev sp s = s
wake_sleepers (suc fuel) now prev none s = s
wake_sleepers (suc fuel) now prev (some i) s = elim (leb (at s i).sleep_until now) [
  | true ↦ wake_sleepers fuel now prev (at s i).next (wake prev i s)
  | false ↦ wake_sleepers fuel now (some i) (at s i).next s
]

-- A running process other than the idle one goes behind the others.
unfoldable pub requeue : ℕ → Sched → Sched
requeue c s =
    if is (at s c).state running && (at s c).pid != 0
    then enqueue_ready c (put c (record (at s c) { state = ready }) s)
    else s

-- The switch to process `n`. The contents of the registers are not part of the state.
unfoldable pub dispatch : ℕ → ℕ → Sched → Sched
dispatch c n s =
    if n == c
    then record (put n (record (at s n) { state = running }) s) { need_resched = false }
    else record (put n (record (at s n) { state = running; ticks_left = time_slice }) s) {
      need_resched = false;
      current = some n;
    }

-- The head of the ready queue, or the idle process.
unfoldable pub pick : ℕ → Sched × Option ℕ → Sched
unfolding dispatch
pick c (s, none) = dispatch c 0 s
pick c (s, some n) = dispatch c n s

-- The switch away from process `c`, whose frame is saved.
unfoldable pub switch_from : ℕ → ℕ → Sched → Sched
switch_from c frame s =
    let s1 = put c (record (at s c) { kstack_top = frame }) s in
    let s2 = wake_sleepers max_processes s1.pit_ticks none s1.sleep_queue s1 in
    pick c (dequeue_ready (requeue c s2))

unfoldable pub do_switch : ℕ → Sched → Sched
do_switch frame s =
    if s.initialized then elim s.current [ none ↦ s | some c ↦ switch_from c frame s ] else s
