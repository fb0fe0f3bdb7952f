-- ===== src/Sched/Spawn/Program.antt =====
-- `sched_create_process` of kernel/core/sched.c.
use utms.Base.{
  ℕ, zero, suc, ◌+◌, ◌-◌, ◌*◌, ◌/◌, Bool, true, false, not, ◌&&◌, ◌||◌, List, [], ◌∷◌, none, some,
  if◌then◌else◌, ◌==◌, u64, length, take, replicate,
}
use utms.Sched.State.{Proc, blank, Sched, ready, kernel_stack_size, time_slice}
use utms.Sched.Spawn.Stack.{initial_rsp}
use utms.Sched.Spawn.{
  Memory, Spawned, alloc_pid, find_unused, no_fd, give_up, admit, user_frame, parent_pid,
  frame_size,
}

-- The 64 pages of the user stack, from page `i` on.
unfoldable pub stack_mapped : Memory → ℕ → ℕ → Bool
stack_mapped m zero i = true
stack_mapped m (suc left) i = elim (m.stack_page i && m.map_page i) [
  | true ↦ stack_mapped m left (suc i)
  | false ↦ false
]

-- A new program: standard descriptors, a heap behind its image, the stack of `Stack`.
unfoldable pub program : Memory → ℕ → List ℕ → ℕ → ℕ → Sched → Proc
program m pid name entry max_vaddr s = record blank {
  pid = pid;
  ppid = parent_pid s;
  name = take 31 name;
  chroot_path = 47 ∷ [];
  state = ready;
  ticks_left = time_slice;
  cr3 = m.create_space;
  user_rip = entry;
  heap_start = u64 (max_vaddr + 4095) / 4096 * 4096;
  heap_end = u64 (max_vaddr + 4095) / 4096 * 4096;
  user_rsp = initial_rsp (length name);
  kstack = m.kstack;
  kstack_top = m.kstack + kernel_stack_size - frame_size;
  frame = record (user_frame entry (initial_rsp (length name))) {
    rsi = initial_rsp (length name) + 8;
    rdi = 1;
  };
  fpu = m.clean_fpu;
  fds =
      let open_fd = record no_fd { used = true } in
      open_fd ∷ open_fd ∷ open_fd ∷ replicate 29 no_fd;
}

-- `sched_create_process`
unfoldable pub create_process : Memory → List ℕ → List ℕ → Sched → Spawned
create_process m name elf s =
    if s.initialized
    then elim (find_unused s) [
      | none ↦ (s, none, none)
      | some i ↦
          let (s1, pid) = alloc_pid s in
          let (entry, max_vaddr) = m.load elf in
          let p = program m pid name entry max_vaddr s in
          if m.create_space == 0
          then give_up i p none s1
          else if (entry == 0) || (not (stack_mapped m 64 0) || (m.kstack == 0))
          then give_up i p (some m.create_space) s1
          else admit i p s1
    ]
    else (s, none, none)
