-- ===== src/Sched/State.antt =====
-- `process_t` and the static variables of kernel/core/sched.c. A pointer to a process is its index
-- in the table; the links `next` are kept as the code keeps them.
use utms.Base.{ℕ, Bool, List, [], Option, none, get_or, set, ◌==◌}
use utms.Base.Int.{ℤ, pos}

-- PROC_UNUSED, …, PROC_ZOMBIE, in the order of their numbers.
pub data PState : Type 0 where
  unused ready running sleeping blocked zombie : PState

abbrev pub number : PState → ℕ
number unused = 0
number ready = 1
number running = 2
number sleeping = 3
number blocked = 4
number zombie = 5

abbrev pub is : PState → PState → Bool
is a b = number a == number b

-- `struct interrupt_frame`
pub record Frame : Type 0 where
  pub rax : ℕ
  pub rbx : ℕ
  pub rcx : ℕ
  pub rdx : ℕ
  pub rsi : ℕ
  pub rdi : ℕ
  pub rbp : ℕ
  pub r8 : ℕ
  pub r9 : ℕ
  pub r10 : ℕ
  pub r11 : ℕ
  pub r12 : ℕ
  pub r13 : ℕ
  pub r14 : ℕ
  pub r15 : ℕ
  pub error_code : ℕ
  pub vector : ℕ
  pub rip : ℕ
  pub cs : ℕ
  pub rflags : ℕ
  pub rsp : ℕ
  pub ss : ℕ

-- `memset(frame, 0, sizeof(*frame))`
abbrev pub zero_frame : Frame
zero_frame = record {
  rax = 0;
  rbx = 0;
  rcx = 0;
  rdx = 0;
  rsi = 0;
  rdi = 0;
  rbp = 0;
  r8 = 0;
  r9 = 0;
  r10 = 0;
  r11 = 0;
  r12 = 0;
  r13 = 0;
  r14 = 0;
  r15 = 0;
  error_code = 0;
  vector = 0;
  rip = 0;
  cs = 0;
  rflags = 0;
  rsp = 0;
  ss = 0;
}

-- `fd_entry_t`
pub record Fd : Type 0 where
  pub used : Bool
  pub kind : ℕ
  pub object : ℕ
  pub pos : ℕ
  pub flags : ℕ

-- The fields of `process_t`. `frame` is the frame that lies at `kstack_top` when the process is
-- made; `fpu` is the saved state of the floating-point unit.
pub record Proc : Type 0 where
  pub pid : ℕ
  pub ppid : ℕ
  pub name : List ℕ
  pub state : PState
  pub kstack : ℕ
  pub kstack_top : ℕ
  pub frame : Frame
  pub cr3 : ℕ
  pub ticks_left : ℕ
  pub sleep_until : ℕ
  pub exit_code : ℤ
  pub waiting_for : ℕ
  pub next : Option ℕ
  pub heap_start : ℕ
  pub heap_end : ℕ
  pub fds : List Fd
  pub user_rip : ℕ
  pub user_rsp : ℕ
  pub irq_mask : ℕ
  pub irq_pending : ℕ
  pub chroot_path : List ℕ
  pub fpu : List ℕ

-- `memset(p, 0, sizeof(process_t))`
abbrev pub blank : Proc
blank = record {
  pid = 0;
  ppid = 0;
  name = [];
  state = unused;
  kstack = 0;
  kstack_top = 0;
  frame = zero_frame;
  cr3 = 0;
  ticks_left = 0;
  sleep_until = 0;
  exit_code = pos 0;
  waiting_for = 0;
  next = none;
  heap_start = 0;
  heap_end = 0;
  fds = [];
  user_rip = 0;
  user_rsp = 0;
  irq_mask = 0;
  irq_pending = 0;
  chroot_path = [];
  fpu = [];
}

-- `processes`, `current`, `ready_queue`, `ready_queue_tail`, `sleep_queue`, `next_pid`,
-- `process_count`, `sched_need_resched`, `sched_initialized`, `pit_ticks`. (`sched_locked` is never
-- set.)
pub record Sched : Type 0 where
  pub procs : List Proc
  pub current : Option ℕ
  pub ready_queue : Option ℕ
  pub ready_queue_tail : Option ℕ
  pub sleep_queue : Option ℕ
  pub next_pid : ℕ
  pub process_count : ℕ
  pub need_resched : Bool
  pub initialized : Bool
  pub pit_ticks : ℕ

abbrev pub max_processes : ℕ
max_processes = 64

abbrev pub kernel_stack_size : ℕ
kernel_stack_size = 16384

-- `TIME_SLICE_MS / (1000 / PIT_TARGET_HZ)`
abbrev pub time_slice : ℕ
time_slice = 10

-- The page table of the kernel.
abbrev pub kernel_cr3 : ℕ
kernel_cr3 = 0x1000

abbrev pub at : Sched → ℕ → Proc
at s i = get_or s.procs i blank

abbrev pub put : ℕ → Proc → Sched → Sched
put i p s = record s { procs = set s.procs i p }
