-- ===== src/Sched/Tests.antt =====
-- The theorems about the scheduler at concrete inputs.
use utms.Sched.State.{blocked, unused, is, Proc, Sched, blank, ready, running, at}
use utms.Base.{
  not, ◌&&◌, ◌==◌, find_index, ◌+◌, ◌-◌, ◌*◌, ◌%◌, ◌<◌, ◌≤◌, ◌≡◌, refl, true, false, List, [], ◌∷◌,
  ◌++◌, some, none, arith,
}
use utms.Sched.Queue.{enqueue_ready, dequeue_ready}
use utms.Sched.Switch.{do_switch}
use utms.Sched.Calls.{kill, wake_irq}
use utms.Sched.Fifo.{IsQueue, enqueue_ready-appends, dequeue_ready-takes_oldest}
use utms.Sched.Kill.{Runs, do_switch-Runs, kill-Runs_again}
use utms.Sched.Irq.{SameQueues, wake_irq-queues_nothing}
use utms.Sched.Spawn.{Memory, TrapFrame, find_unused, fork}
use utms.Sched.Spawn.Fork.{Outcome, IsChild, fork-Outcome}
use utms.Sched.Spawn.Stack.{user_stack_top, name_ptr, random_ptr, initial_rsp, initial_rsp_layout}

-- The idle process, one that runs, one in the ready queue, one that is ready, a free slot, and one
-- that waits for interrupt 1.
abbrev procs : List Proc
procs =
    record blank { state = ready }
    ∷ record blank { pid = 1; state = running }
    ∷ record blank { pid = 2; state = ready }
    ∷ record blank { pid = 3; state = ready }
    ∷ blank
    ∷ record blank { pid = 5; state = blocked; irq_mask = 2 }
    ∷ []

abbrev sched : Sched
sched = record {
  procs = procs;
  current = some 1;
  ready_queue = some 2;
  ready_queue_tail = some 2;
  sleep_queue = none;
  next_pid = 4;
  process_count = 3;
  need_resched = false;
  initialized = true;
  pit_ticks = 0;
}

sched-IsQueue : IsQueue sched (2 ∷ [])
sched-IsQueue = record { links = (refl, omega arith, refl); tail = refl; distinct = (tt, tt) }

enqueue_ready-appends_example : IsQueue (enqueue_ready 3 sched) ((2 ∷ []) ++ (3 ∷ []))
enqueue_ready-appends_example =
    enqueue_ready-appends 3 sched (2 ∷ []) sched-IsQueue refl (omega arith) ((λ e. omega arith), tt)

dequeue_ready-takes_oldest_example :
    ((dequeue_ready sched).1 ≡ some 2) × IsQueue (dequeue_ready sched).0 []
dequeue_ready-takes_oldest_example = dequeue_ready-takes_oldest sched 2 [] sched-IsQueue

do_switch-Runs_example : Runs 2 (do_switch 4096 sched)
do_switch-Runs_example =
    do_switch-Runs 2 1 4096 sched refl refl refl refl (omega arith) (λ e. omega arith)

found : find_index (λ (p : Proc). p.pid == 2 && not (is p.state unused)) procs ≡ some 2
unfolding find_index
found = refl

kill-Runs_again_example : Runs 2 (do_switch 4096 (kill 2 sched).0)
kill-Runs_again_example =
    kill-Runs_again 2 2 1 4096 sched refl refl refl refl found (λ e. omega arith)

wake_irq-queues_nothing_example : SameQueues sched (wake_irq 1 sched)
wake_irq-queues_nothing_example = wake_irq-queues_nothing 1 sched

initial_rsp_layout_example :
    (initial_rsp 5 % 16 ≡ 0)
    × (initial_rsp 5 + 96 ≤ random_ptr 5)
    × (random_ptr 5 + 16 ≡ name_ptr 5)
    × (name_ptr 5 + 5 < user_stack_top)
    × (user_stack_top - 64 * 4096 ≤ initial_rsp 5)
initial_rsp_layout_example = initial_rsp_layout 5 (omega arith)

abbrev memory : Memory
memory = record {
  kstack = 65536;
  create_space = 0;
  copy_space = λ n. n;
  load = λ elf. (0, 0);
  stack_page = λ i. true;
  map_page = λ i. true;
  clean_fpu = [];
  thread_entry = 0;
  idle_loop = 0;
}

abbrev trap : TrapFrame
trap = record {
  rbx = 0;
  rcx = 0x400000;
  rdx = 0;
  rsi = 0;
  rdi = 0;
  rbp = 0;
  r8 = 0;
  r9 = 0;
  r10 = 0;
  r11 = 0x202;
  r12 = 0;
  r13 = 0;
  r14 = 0;
  r15 = 0;
  user_rsp = 0x3ffffff000;
}

free : find_unused sched ≡ some 4
unfolding find_unused find_index
free = refl

fork-Outcome_example :
    Outcome memory
      (at sched 1)
      sched
      4
      (IsChild trap (at sched 1) 4)
      (fork memory (some trap) sched)
fork-Outcome_example = fork-Outcome memory trap sched 1 4 refl refl free
