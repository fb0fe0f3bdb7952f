-- ===== src/Sched/Calls.antt =====
-- The calls of kernel/core/sched.c that do not make a process. A call that ends in
-- `sched_do_switch_yield` is modelled up to that switch, which is `do_switch`.
use Prim.Native.Nat.{bit_or}
use utms.Base.{
  ℕ, zero, suc, ◌+◌, ◌-◌, ◌*◌, ◌/◌, ◌^◌, Bool, true, false, not, ◌&&◌, Option, none, some,
  if◌then◌else◌, ◌==◌, leb, u32, sub32, has_bit, find_index,
}
use utms.Base.Int.{ℤ, negsuc}
use utms.Sched.State.{
  Sched, unused, ready, running, sleeping, blocked, zombie, is, at, put, max_processes, time_slice,
}
use utms.Sched.Queue.{link, enqueue_ready}

-- `*pp = i; i->next = q`, where `pp` is the link behind `prev`, or the head of the sleep queue.
unfoldable pub insert_after : Option ℕ → ℕ → Option ℕ → Sched → Sched
insert_after none i q s = record (link i q s) { sleep_queue = some i }
insert_after (some j) i q s = link j (some i) (link i q s)

-- The walk to the place in the sleep queue, after all that wake no later.
unfoldable pub insert_sleeper : ℕ → ℕ → Option ℕ → Option ℕ → Sched → Sched
insert_sleeper zero i prev q s = s
insert_sleeper (suc fuel) i prev none s = insert_after prev i none s
insert_sleeper (suc fuel) i prev (some j) s = elim (leb (at s j).sleep_until (at s i).sleep_until) [
  | true ↦ insert_sleeper fuel i (some j) (at s j).next s
  | false ↦ insert_after prev i (some j) s
]

-- `(ms * PIT_TARGET_HZ) / 1000` in `u32`, and one tick at least.
unfoldable pub ticks_to_sleep : ℕ → ℕ
ticks_to_sleep ms = let n = u32 (ms * 1000) / 1000 in if n == 0 then 1 else n

-- `sched_sleep`
unfoldable pub sleep : ℕ → Sched → Sched
sleep ms s =
    if s.initialized
    then elim s.current [
      | none ↦ s
      | some c ↦
          let s1 =
            put c
              (record (at s c) {
                state = sleeping;
                sleep_until = u32 (s.pit_ticks + ticks_to_sleep ms);
              })
              s in
          insert_sleeper (suc max_processes) c none s1.sleep_queue s1
    ]
    else s

-- `sched_exit`
unfoldable pub exit : ℤ → Sched → Sched
exit code s =
    if s.initialized
    then elim s.current [
      | none ↦ s
      | some c ↦ record (put c (record (at s c) { state = zombie; exit_code = code }) s) {
        process_count = sub32 s.process_count 1;
      }
    ]
    else s

-- A process in the sleep queue is due.
unfoldable pub any_due : ℕ → ℕ → Option ℕ → Sched → Bool
any_due zero now q s = false
any_due (suc fuel) now none s = false
any_due (suc fuel) now (some i) s = elim (leb (at s i).sleep_until now) [
  | true ↦ true
  | false ↦ any_due fuel now (at s i).next s
]

-- The time slice of the process `c`.
unfoldable pub use_slice : ℕ → Sched → Sched
use_slice c s =
    let left = (at s c).ticks_left - 1 in
    if left == 0 && is (at s c).state running
    then record (put c (record (at s c) { ticks_left = time_slice }) s) { need_resched = true }
    else put c (record (at s c) { ticks_left = left }) s

-- `sched_tick`
unfoldable pub tick : Sched → Sched
tick s =
    if s.initialized
    then elim s.current [
      | none ↦ s
      | some c ↦
          let s1 = use_slice c s in
          if any_due max_processes s1.pit_ticks s1.sleep_queue s1
          then record s1 { need_resched = true }
          else s1
    ]
    else s

-- `pit_handler`, without the deferred callback.
unfoldable pub pit : Sched → Sched
pit s = tick (record s { pit_ticks = u32 (s.pit_ticks + 1) })

-- One round of `sched_waitpid`: the status, the kernel stack to free and the page table to free of
-- a zombie, whose slot is given back. `none` means that the caller yields and tries again.
pub record Reaped : Type 0 where
  pub status : ℤ
  pub free_kstack : ℕ
  pub free_cr3 : ℕ

unfoldable pub reap : ℕ → Sched → Sched × Option Reaped
reap pid s = elim (find_index (λ p. p.pid == pid && is p.state zombie) s.procs) [
  | none ↦ (s, none)
  | some i ↦ (
    put i (record (at s i) { kstack = 0; kstack_top = 0; cr3 = 0; state = unused }) s,
    some (record {
      status = (at s i).exit_code;
      free_kstack = (at s i).kstack;
      free_cr3 = (at s i).cr3;
    }),
  )
]

-- `sched_kill`; the result is whether a process was found.
unfoldable pub kill : ℕ → Sched → Sched × Bool
kill pid s =
    if s.initialized
    then elim (find_index (λ p. p.pid == pid && not (is p.state unused)) s.procs) [
      | none ↦ (s, false)
      | some i ↦ (put i (record (at s i) { state = zombie; exit_code = negsuc 0 }) s, true)
    ]
    else (s, false)

-- `sched_block_on`
unfoldable pub block_on : ℕ → Sched → Sched
block_on channel s =
    if s.initialized
    then elim s.current [
      | none ↦ s
      | some c ↦ put c (record (at s c) { state = blocked; waiting_for = channel }) s
    ]
    else s

-- The body of the loop of `sched_wakeup`.
unfoldable pub wake_one : ℕ → ℕ → Sched → Sched
wake_one channel i s =
    if is (at s i).state blocked && (at s i).waiting_for == channel
    then record (enqueue_ready i (put i (record (at s i) { state = ready; waiting_for = 0 }) s)) {
      need_resched = true;
    }
    else s

-- `left` processes from `i` on.
unfoldable pub wake_from : ℕ → ℕ → ℕ → Sched → Sched
wake_from channel zero i s = s
wake_from channel (suc left) i s = wake_from channel left (suc i) (wake_one channel i s)

unfoldable pub wakeup : ℕ → Sched → Sched
wakeup channel s = if s.initialized then wake_from channel max_processes 0 s else s

-- The body of the loop of `sched_wake_irq`.
unfoldable pub irq_one : ℕ → ℕ → Sched → Sched
irq_one irq i s =
    if not (is (at s i).state ready)
      && (not (is (at s i).state running) && has_bit (2 ^ irq) (at s i).irq_mask)
    then record (put i
        (record (at s i) { irq_pending = bit_or (at s i).irq_pending (2 ^ irq); state = ready })
        s) { need_resched = true }
    else s

unfoldable pub irq_from : ℕ → ℕ → ℕ → Sched → Sched
irq_from irq zero i s = s
irq_from irq (suc left) i s = irq_from irq left (suc i) (irq_one irq i s)

unfoldable pub wake_irq : ℕ → Sched → Sched
wake_irq irq s = irq_from irq max_processes 0 s
