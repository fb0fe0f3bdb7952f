-- ===== src/Sched/Spawn.antt =====
-- Making processes: `alloc_pid`, `sched_create_kthread`, `sched_clone` and `sched_fork` of
-- kernel/core/sched.c; `Program` has `sched_create_process`. A call returns the new state, the
-- pid (`none` is -1), and the address space that it gave back on a failure.
pub mod Stack
pub mod Fork
pub mod Program
use Prim.Native.Nat.{bit_or}
use utms.Base.{
  ℕ, zero, suc, ◌+◌, ◌-◌, ◌*◌, ◌/◌, ◌%◌, ◌^◌, Bool, true, false, not, ◌&&◌, ◌||◌, List, [], ◌∷◌,
  Option, none, some, if◌then◌else◌, ◌==◌, ◌!=◌, leb, u32, u64, length, take, replicate, find_index,
}
use utms.Sched.State.{
  Frame, zero_frame, Fd, Proc, blank, Sched, PState, unused, ready, running, is, at, put,
  kernel_stack_size, time_slice, kernel_cr3,
}
use utms.Sched.Queue.{enqueue_ready}
use utms.Sched.Spawn.Stack.{user_stack_top, initial_rsp}

-- What the other parts of the kernel answer; 0 stands for NULL. `kstack` is the kernel stack that
-- `kmalloc` gives, `load` the entry point and the highest address of an executable, `stack_page i`
-- and `map_page i` whether the page `i` of the user stack is allocated and mapped.
pub record Memory : Type 0 where
  pub kstack : ℕ
  pub create_space : ℕ
  pub copy_space : ℕ → ℕ
  pub load : List ℕ → ℕ × ℕ
  pub stack_page : ℕ → Bool
  pub map_page : ℕ → Bool
  pub clean_fpu : List ℕ
  pub thread_entry : ℕ
  pub idle_loop : ℕ

abbrev pub Spawned : Type 0
Spawned = Sched × Option ℕ × Option ℕ

-- `sizeof(struct interrupt_frame)`
abbrev pub frame_size : ℕ
frame_size = 176

unfoldable pub alloc_pid : Sched → Sched × ℕ
alloc_pid s =
    (record s { next_pid = if leb 10000 (s.next_pid + 1) then 1 else s.next_pid + 1 }, s.next_pid)

unfoldable pub find_unused : Sched → Option ℕ
find_unused s = find_index (λ p. is p.state unused) s.procs

abbrev pub no_fd : Fd
no_fd = record { used = false; kind = 0; object = 0; pos = 0; flags = 0 }

-- A slot that could not be made into a process. What its other fields hold is cleared when the slot
-- is used again.
abbrev pub give_up : ℕ → Proc → Option ℕ → Sched → Spawned
give_up i p freed s = (put i (record p { state = unused }) s, none, freed)

-- A process that is complete joins the ready queue.
unfoldable pub admit : ℕ → Proc → Sched → Spawned
admit i p s =
    let s1 = enqueue_ready i (put i p s) in
    (record s1 { process_count = u32 (s1.process_count + 1) }, some p.pid, none)

-- The frame of a thread in the kernel.
abbrev pub kernel_frame : ℕ → ℕ → Frame
kernel_frame rip rsp = record zero_frame {
  vector = 128;
  rip = rip;
  cs = 0x08;
  rflags = 0x202;
  rsp = rsp;
  ss = 0x10;
}

-- The frame of a process in ring 3.
abbrev pub user_frame : ℕ → ℕ → Frame
user_frame rip rsp = record zero_frame {
  vector = 128;
  rip = rip;
  cs = 0x2b;
  rflags = 0x202;
  rsp = rsp;
  ss = 0x23;
}

-- The pid and page table of the running process, as a new one inherits them.
abbrev pub parent_pid : Sched → ℕ
parent_pid s = elim s.current [ none ↦ 0 | some c ↦ (at s c).pid ]

abbrev pub parent_cr3 : Sched → ℕ
parent_cr3 s = elim s.current [ none ↦ kernel_cr3 | some c ↦ (at s c).cr3 ]

unfoldable pub thread : Memory → ℕ → List ℕ → ℕ → ℕ → Sched → Proc
thread m pid name entry arg s = record blank {
  pid = pid;
  ppid = parent_pid s;
  name = take 31 name;
  chroot_path = 47 ∷ [];
  state = ready;
  ticks_left = time_slice;
  cr3 = parent_cr3 s;
  kstack = m.kstack;
  kstack_top = m.kstack + kernel_stack_size - frame_size;
  frame = record (kernel_frame m.thread_entry (m.kstack + kernel_stack_size - 8)) {
    rsi = arg;
    rdi = entry;
  };
  fpu = m.clean_fpu;
  fds = replicate 32 no_fd;
  heap_start = 0x40000000;
  heap_end = 0x40000000;
}

-- `sched_create_kthread`
unfoldable pub create_kthread : Memory → List ℕ → ℕ → ℕ → Sched → Spawned
create_kthread m name entry arg s =
    if s.initialized
    then elim (find_unused s) [
      | none ↦ (s, none, none)
      | some i ↦
          let (s1, pid) = alloc_pid s in
          let p = thread m pid name entry arg s in
          if m.kstack == 0 then give_up i p none s1 else admit i p s1
    ]
    else (s, none, none)

-- The page table of a child: shared with a kernel thread, copied from a process; 0 is a failure.
unfoldable pub child_cr3 : Memory → Proc → ℕ
child_cr3 m parent = if parent.cr3 == kernel_cr3 then parent.cr3 else m.copy_space parent.cr3

-- What a child has from its parent, whatever its frame.
unfoldable pub child_of : Memory → ℕ → ℕ → Proc → Proc
child_of m pid name_len parent = record blank {
  pid = pid;
  ppid = parent.pid;
  name = take name_len parent.name;
  chroot_path = parent.chroot_path;
  state = ready;
  ticks_left = time_slice;
  cr3 = child_cr3 m parent;
  heap_start = parent.heap_start;
  heap_end = parent.heap_end;
  fds = parent.fds;
  fpu = parent.fpu;
  kstack = m.kstack;
}

-- The checks that `sched_clone` and `sched_fork` make on a child, and its admission.
unfoldable pub complete : Memory → ℕ → Proc → Sched → Spawned
unfolding admit
complete m i p s =
    if p.cr3 == 0
    then give_up i p none s
    else if m.kstack == 0
    then give_up i p (if p.cr3 != kernel_cr3 then some p.cr3 else none) s
    else admit i p s

-- `sched_clone`
unfoldable pub clone : Memory → ℕ → ℕ → Sched → Spawned
unfolding child_of
clone m user_rip user_rsp s =
    if not s.initialized || user_rsp % 16 != 0 then (s, none, none) else elim s.current [
      | none ↦ (s, none, none)
      | some c ↦ elim (find_unused s) [
        | none ↦ (s, none, none)
        | some i ↦
            let (s1, pid) = alloc_pid s in
            complete m i
              (record (child_of m pid 27 (at s c)) {
                user_rip = user_rip;
                user_rsp = user_rsp;
                kstack_top = m.kstack + kernel_stack_size - frame_size;
                frame = user_frame user_rip user_rsp;
              })
              s1
      ]
    ]

-- What `sched_fork` reads of the parent's `trap_frame_t`.
pub record TrapFrame : Type 0 where
  pub rbx : ℕ
  pub rcx : ℕ
  pub rdx : ℕ
  pub rsi : ℕ
  pub rdi : ℕ
  pub rbp : ℕ
  pub r8 : ℕ
  pub r9 : ℕ
  pub r10 : ℕ
  pub r11 : ℕ
  pub r12 : ℕ
  pub r13 : ℕ
  pub r14 : ℕ
  pub r15 : ℕ
  pub user_rsp : ℕ

-- The child resumes where the parent's system call returns, with 0 as its result.
unfoldable pub child_frame : TrapFrame → Frame
child_frame f = record {
  rax = 0;
  rbx = f.rbx;
  rcx = 0;
  rdx = f.rdx;
  rsi = f.rsi;
  rdi = f.rdi;
  rbp = f.rbp;
  r8 = f.r8;
  r9 = f.r9;
  r10 = f.r10;
  r11 = 0;
  r12 = f.r12;
  r13 = f.r13;
  r14 = f.r14;
  r15 = f.r15;
  error_code = 0;
  vector = 128;
  rip = f.rcx;
  cs = 0x2b;
  rflags = bit_or (f.r11 % 2 ^ 18) 0x202;
  rsp = f.user_rsp;
  ss = 0x23;
}

-- `sched_fork`; a NULL frame is `none`.
unfoldable pub fork : Memory → Option TrapFrame → Sched → Spawned
unfolding child_of
fork m none s = (s, none, none)
fork m (some f) s =
    if s.initialized
    then elim s.current [
      | none ↦ (s, none, none)
      | some c ↦ elim (find_unused s) [
        | none ↦ (s, none, none)
        | some i ↦
            let (s1, pid) = alloc_pid s in
            complete m i
              (record (child_of m pid 31 (at s c)) {
                kstack_top = (m.kstack + kernel_stack_size - frame_size) / 16 * 16;
                frame = child_frame f;
                user_rip = f.rcx;
                user_rsp = f.user_rsp;
              })
              s1
      ]
    ]
    else (s, none, none)
