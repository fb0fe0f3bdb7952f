-- ===== src/Sched/Init.antt =====
-- `sched_init`. The timer, the task state segment and the calibration of the clock are devices.
use utms.Base.{
  ◌+◌, ◌-◌, Bool, true, false, [], ◌∷◌, none, some, if◌then◌else◌, ◌==◌, replicate, set,
}
use utms.Sched.State.{
  Sched, Proc, blank, ready, running, at, put, max_processes, time_slice, kernel_cr3,
  kernel_stack_size,
}
use utms.Sched.Queue.{enqueue_ready}
use utms.Sched.Spawn.{Memory, kernel_frame, frame_size}

-- The idle process before it runs.
unfoldable pub idle : Memory → Proc
idle m = record blank {
  name = 105 ∷ 100 ∷ 108 ∷ 101 ∷ [];
  chroot_path = 47 ∷ [];
  state = ready;
  ticks_left = time_slice + 1000;
  cr3 = kernel_cr3;
  kstack = m.kstack;
  kstack_top = m.kstack + kernel_stack_size - frame_size;
  frame = kernel_frame m.idle_loop (m.kstack + kernel_stack_size);
  fpu = m.clean_fpu;
}

-- The table with the idle process alone, nothing queued, the scheduler off.
unfoldable pub cleared : Proc → Bool → Sched
cleared p resched = record {
  procs = set (replicate max_processes blank) 0 p;
  current = none;
  ready_queue = none;
  ready_queue_tail = none;
  sleep_queue = none;
  next_pid = 1;
  process_count = 0;
  need_resched = resched;
  initialized = false;
  pit_ticks = 0;
}

-- The idle process is put into the ready queue and runs.
unfoldable pub start : Sched → Sched
start s =
    let s1 = enqueue_ready 0 s in
    record (put 0 (record (at s1 0) { state = running; ticks_left = time_slice }) s1) {
      current = some 0;
      process_count = 1;
      initialized = true;
      need_resched = false;
    }

-- `sched_init`; the result is whether it gave 0.
unfoldable pub init : Memory → Sched → Sched × Bool
unfolding idle cleared
init m s =
    if m.kstack == 0
    then (
      cleared (record (idle m) { kstack_top = 0; frame = (blank).frame; fpu = [] }) s.need_resched,
      false,
    )
    else (start (cleared (idle m) s.need_resched), true)
