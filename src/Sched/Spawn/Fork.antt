-- ===== src/Sched/Spawn/Fork.antt =====
-- What `sched_fork` does to the table and the queue.
use utms.Base.{◌!=◌, if◌then◌else◌}
use utms.Sched.State.{kernel_cr3}
use utms.Sched.Fifo.{IsQueue, Apart, Links-set, enqueue_ready-appends}
use utms.Base.{◌++◌, ◌∷◌, [], List, u32, arith, length-set, ◌⊎◌, inl, inr, if_cases, ==_iff, false}
use utms.Sched.Spawn.{child_cr3}
use utms.Base.{
  elim_some, if_known, ◌==◌, find_index_sound, true, get_or-set_self, get_or-set_ne, ap, ◌∙◌,
  Option_elim, get_or-set-keeps, if_elim, ℕ, ◌+◌, ◌<◌, ◌≡◌, ◌≢◌, refl, Option, none, some, length,
}
use mathlib.Core.Path.{sym, subst}
use utms.Sched.Spawn.{
  give_up, Memory, Spawned, TrapFrame, alloc_pid, find_unused, admit, complete, child_of,
  child_frame, fork,
}
use utms.Sched.Queue.{append_at, link, enqueue_ready}
use utms.Sched.State.{Proc, Sched, at, put, blank, unused, ready, is}

-- A process without its link.
abbrev pub unlinked : Proc → Proc
unlinked p = record p { next = none }

link-unlinked :
    (i j : ℕ) (q : Option ℕ) (s : Sched) → unlinked (at (link i q s) j) ≡ unlinked (at s j)
link-unlinked i j q s =
    get_or-set-keeps unlinked s.procs i j (record (at s i) { next = q }) blank refl

append_at-unlinked :
    (i j : ℕ) (o : Option ℕ) (s : Sched) → unlinked (at (append_at o i s) j) ≡ unlinked (at s j)
append_at-unlinked i j none s = refl
append_at-unlinked i j (some t) s = link-unlinked t j (some i) s

append_at-count :
    (i : ℕ) (o : Option ℕ) (s : Sched) → (append_at o i s).process_count ≡ s.process_count
append_at-count i none s = refl
append_at-count i (some t) s = refl

-- Joining the queue changes nothing of a process but its link.
enqueue_ready-unlinked :
    (i j : ℕ) (s : Sched) → unlinked (at (enqueue_ready i s) j) ≡ unlinked (at s j)
unfolding enqueue_ready
enqueue_ready-unlinked i j s =
    if_elim (λ (t : Sched). unlinked (at t j) ≡ unlinked (at s j)) _
      (Option_elim (λ (t : Sched). unlinked (at t j) ≡ unlinked (at s j)) s.ready_queue
        (link-unlinked i j none s)
        (λ h e.
          append_at-unlinked i j s.ready_queue_tail (link i none s) ∙ link-unlinked i j none s))
      refl

enqueue_ready-count : (i : ℕ) (s : Sched) → (enqueue_ready i s).process_count ≡ s.process_count
unfolding enqueue_ready
enqueue_ready-count i s =
    if_elim (λ (t : Sched). t.process_count ≡ s.process_count) _
      (Option_elim (λ (t : Sched). t.process_count ≡ s.process_count) s.ready_queue refl
        (λ h e. append_at-count i s.ready_queue_tail (link i none s)))
      refl

-- What a child has from the process that forked, and where it resumes.
pub record IsChild (f : TrapFrame) (parent : Proc) (number : ℕ) (p : Proc) : Type 0 where
  pub pid : p.pid ≡ number
  pub ppid : p.ppid ≡ parent.pid
  pub state : p.state ≡ ready
  pub result : p.frame.rax ≡ 0
  pub rip : p.frame.rip ≡ f.rcx
  pub rsp : p.frame.rsp ≡ f.user_rsp
  pub fds : p.fds ≡ parent.fds
  pub heap_end : p.heap_end ≡ parent.heap_end

-- Why there is no child, and the page table that is given back: none where there is none; the
-- child's own where there is no stack for it, but not the kernel's.
abbrev pub Refused : Memory → Proc → Option ℕ → Type 0
Refused m parent freed =
    ((child_cr3 m parent ≡ 0) × (freed ≡ none))
    ⊎ ((m.kstack ≡ 0)
        × (freed ≡ (if child_cr3 m parent != kernel_cr3 then some (child_cr3 m parent) else none)))

-- What a call for a child of `parent` in slot `i` leaves. There was no page table or no stack, and
-- nothing is new, with the queue as it was. Or there were both, and the child is in its slot and
-- joins the ready queue as its last.
pub data Outcome (m : Memory) (parent : Proc) (s : Sched) (i : ℕ) (Child : Proc → Type 0)
    (r : Spawned) : Type 0 where
  nothing :
      Refused m parent r.2
      → r.1 ≡ none
      → r.0.ready_queue ≡ s.ready_queue
      → r.0.process_count ≡ s.process_count
      → ((j : ℕ) → i ≢ j → at r.0 j ≡ at s j)
      → (at r.0 i).state ≡ unused
      → Outcome m parent s i Child r
  made :
      child_cr3 m parent ≢ 0
      → m.kstack ≢ 0
      → r.1 ≡ some s.next_pid
      → r.0.process_count ≡ u32 (s.process_count + 1)
      → ((q : List ℕ) → IsQueue s q → Apart i q → IsQueue r.0 (q ++ (i ∷ [])))
      → ((j : ℕ) → i ≢ j → unlinked (at r.0 j) ≡ unlinked (at s j))
      → Child (unlinked (at r.0 i))
      → Outcome m parent s i Child r

module _ (m : Memory) (parent : Proc) (s : Sched) (i : ℕ) (lt : i < length s.procs)
    (Child : Proc → Type 0) (p : Proc) (pid : p.pid ≡ s.next_pid) (is_ready : p.state ≡ ready)
    (table : p.cr3 ≡ child_cr3 m parent) (is_child : Child (unlinked p)) (next : ℕ) where
  -- The state after `alloc_pid`.
  after : Sched
  after = record s { next_pid = next }

  give_up-Outcome :
      (freed : Option ℕ)
      → Refused m parent freed
      → Outcome m parent s i Child (give_up i p freed after)
  unfolding after
  give_up-Outcome freed reason =
      nothing reason refl refl refl
        (λ j ne. get_or-set_ne s.procs i j (record p { state = unused }) blank ne)
        (ap (λ (x : Proc). x.state)
          (get_or-set_self s.procs i (record p { state = unused }) blank lt))

  admit-IsQueue :
      (q : List ℕ) → IsQueue s q → Apart i q → IsQueue (admit i p after).0 (q ++ (i ∷ []))
  unfolding after admit
  admit-IsQueue q h apart =
      let stored : IsQueue (put i p after) q = record {
        links = Links-set s.procs s.ready_queue q i p apart h.links;
        tail = h.tail;
        distinct = h.distinct;
      } in
      let e =
        enqueue_ready-appends i (put i p after) q stored
          (ap (λ (x : Proc). x.state) (get_or-set_self s.procs i p blank lt) ∙ is_ready)
          (omega (arith, lt, length-set s.procs i p)) apart in
      record { links = e.links; tail = e.tail; distinct = e.distinct }

  admit-Outcome :
      child_cr3 m parent ≢ 0 → m.kstack ≢ 0 → Outcome m parent s i Child (admit i p after)
  unfolding after admit
  admit-Outcome mapped stack =
      made mapped stack (ap some pid)
        (ap (λ n. u32 (n + 1)) (enqueue_ready-count i (put i p after))) admit-IsQueue
        (λ j ne.
          enqueue_ready-unlinked i j (put i p after)
          ∙ ap unlinked (get_or-set_ne s.procs i j p blank ne))
        (subst Child
          (sym (
            enqueue_ready-unlinked i i (put i p after)
            ∙ ap unlinked (get_or-set_self s.procs i p blank lt)))
          is_child)

  complete-Outcome : Outcome m parent s i Child (complete m i p after)
  unfolding complete
  complete-Outcome =
      let P = Outcome m parent s i Child in
      if_cases P (p.cr3 == 0)
        (λ z. give_up-Outcome none (inl (sym table ∙ (==_iff p.cr3 0).0 z, refl)))
        (λ mapped.
          if_cases P (m.kstack == 0)
            (λ z. give_up-Outcome (if p.cr3 != kernel_cr3 then some p.cr3 else none) (
              inr (
                (==_iff m.kstack 0).0 z,
                ap (λ c. if c != kernel_cr3 then some c else none) table,
              )))
            (λ stack.
              admit-Outcome (λ e. nonzero p.cr3 mapped (table ∙ e)) (nonzero m.kstack stack)))
    where
      nonzero : (n : ℕ) → (n == 0) ≡ false → n ≢ 0
      nonzero n f e = ground arith

-- With the scheduler on, a current process and a free slot `i`, a fork gives -1 only when there was
-- no page table for the child or no kernel stack, with the queue, the count and every other process
-- as they were and the slot still free, and a page table of the child's own given back. Else both
-- were there, and it gives the next pid, with the count of processes one higher, modulo 2^32, every
-- other process as it was but for its link, and the child in slot `i`, ready to return 0 where its
-- parent called, with its parent's descriptors; a ready queue that did not hold the slot `i` has it
-- as its last.
pub fork-Outcome :
    (m : Memory) (f : TrapFrame) (s : Sched) (c i : ℕ)
    → s.initialized ≡ true
    → s.current ≡ some c
    → find_unused s ≡ some i
    → Outcome m (at s c) s i (IsChild f (at s c) s.next_pid) (fork m (some f) s)
unfolding fork alloc_pid child_of child_frame find_unused after
fork-Outcome m f s c i on cur free =
    let P = Outcome m (at s c) s i (IsChild f (at s c) s.next_pid) in
    let (lt, _) = find_index_sound (λ (p : Proc). is p.state unused) s.procs blank free in
    if_known P s.initialized _ on (
      elim_some P s.current _ _ cur (
        elim_some P (find_unused s) _ _ free (
          complete-Outcome m (at s c) s i lt (IsChild f (at s c) s.next_pid) _ refl refl refl
            (record {
              pid = refl;
              ppid = refl;
              state = refl;
              result = refl;
              rip = refl;
              rsp = refl;
              fds = refl;
              heap_end = refl;
            })
            _)))
