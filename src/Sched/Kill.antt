-- ===== src/Sched/Kill.antt =====
-- `sched_kill` of a process that waits in the ready queue.
use utms.Base.Int.{negsuc}
use utms.Sched.State.{zombie, unused, is, Proc, Sched, at, put, blank, running, max_processes}
use utms.Base.{
  elim_some, if_known, find_index_sound, Bool, not, ◌&&◌, find_index, arith, get_or-set_self,
  ==_iff, if◌then◌else◌, suc, ◌==◌, ap, if_cases, ◌∙◌, if_elim, length-set, ℕ, ◌<◌, ◌≡◌, ◌≢◌, refl,
  true, Option, none, some, length, zero,
}
use utms.Sched.Queue.{pop, dequeue_ready, enqueue_ready, append, append_at, link}
use mathlib.Core.Path.{sym, subst}
use utms.Sched.Switch.{wake_sleepers, do_switch, switch_from, requeue, dispatch, pick}
use utms.Sched.Calls.{kill}
use utms.Sched.Fifo.{dequeue_ready-head}

-- What the head of a queue has, whatever is added behind it.
record HeadIs (i n : ℕ) (s : Sched) : Type 0 where
  head : s.ready_queue ≡ some i
  size : length s.procs ≡ n

put-HeadIs : (i n j : ℕ) (p : Proc) (s : Sched) → HeadIs i n s → HeadIs i n (put j p s)
put-HeadIs i n j p s h = record { head = h.head; size = length-set s.procs j p ∙ h.size }

append_at-HeadIs :
    (i n j : ℕ) (o : Option ℕ) (s : Sched) → HeadIs i n s → HeadIs i n (append_at o j s)
append_at-HeadIs i n j none s h = h
append_at-HeadIs i n j (some t) s h = record {
  head = h.head;
  size = length-set s.procs t (record (at s t) { next = some j }) ∙ h.size;
}

append-HeadIs : (i n j : ℕ) (s : Sched) → HeadIs i n s → HeadIs i n (append j s)
append-HeadIs i n j s h =
    subst (HeadIs i n)
      (sym (
        ap
          (λ o. elim o [
            | none ↦ record s { ready_queue = some j; ready_queue_tail = some j }
            | some k ↦ append_at s.ready_queue_tail j s
          ])
          h.head))
      (append_at-HeadIs i n j s.ready_queue_tail s h)

enqueue_ready-HeadIs : (i n j : ℕ) (s : Sched) → HeadIs i n s → HeadIs i n (enqueue_ready j s)
unfolding enqueue_ready
enqueue_ready-HeadIs i n j s h =
    if_elim (HeadIs i n) _ (append-HeadIs i n j (link j none s) (put-HeadIs i n j _ s h)) h

requeue-HeadIs : (i n c : ℕ) (s : Sched) → HeadIs i n s → HeadIs i n (requeue c s)
unfolding requeue
requeue-HeadIs i n c s h =
    if_elim (HeadIs i n) _ (enqueue_ready-HeadIs i n c _ (put-HeadIs i n c _ s h)) h

-- The process `i` runs.
pub record Runs (i : ℕ) (s : Sched) : Type 0 where
  pub current : s.current ≡ some i
  pub state : (at s i).state ≡ running

dispatch-Runs : (i c : ℕ) (s : Sched) → i < length s.procs → i ≢ c → Runs i (dispatch c i s)
unfolding dispatch
dispatch-Runs i c s lt ne =
    if_cases (Runs i) (i == c) (λ e. absurd (ne ((==_iff i c).0 e)))
      (λ e. record {
        current = refl;
        state = ap (λ (p : Proc). p.state) (get_or-set_self s.procs i _ blank lt);
      })

pick-Runs :
    (i c n : ℕ) (s : Sched) → HeadIs i n s → i < n → i ≢ c → Runs i (pick c (dequeue_ready s))
unfolding pick
pick-Runs i c n s h lt ne =
    subst (λ r. Runs i (pick c r)) (sym (dequeue_ready-head s i h.head))
      (dispatch-Runs i c (pop i s)
        (omega (arith, lt, h.size, length-set s.procs i (record (at s i) { next = none }))) ne)

wake_sleepers-none :
    (fuel now : ℕ) (prev : Option ℕ) (s : Sched) → wake_sleepers fuel now prev none s ≡ s
unfolding wake_sleepers
wake_sleepers-none zero now prev s = refl
wake_sleepers-none (suc fuel) now prev s = refl

module _ (i c frame : ℕ) (s : Sched) where
  switch_from-Runs :
      s.sleep_queue ≡ none
      → s.ready_queue ≡ some i
      → i < length s.procs
      → i ≢ c
      → Runs i (switch_from c frame s)
  unfolding switch_from
  switch_from-Runs asleep q lt ne =
      let s1 = put c (record (at s c) { kstack_top = frame }) s in
      let awake =
        ap (λ o. wake_sleepers max_processes s.pit_ticks none o s1) asleep
        ∙ wake_sleepers-none max_processes s.pit_ticks none s1 in
      subst (λ t. Runs i (pick c (dequeue_ready (requeue c t)))) (sym awake)
        (pick-Runs i c (length s.procs) (requeue c s1)
          (requeue-HeadIs i (length s.procs) c s1
            (put-HeadIs i (length s.procs) c _ s (record { head = q; size = refl })))
          lt ne)

  -- With the scheduler on, a process `c` current and no process asleep, a switch makes the head of
  -- the ready queue, another process of the table, current and RUNNING, whatever its state was.
  pub do_switch-Runs :
      s.initialized ≡ true
      → s.current ≡ some c
      → s.sleep_queue ≡ none
      → s.ready_queue ≡ some i
      → i < length s.procs
      → i ≢ c
      → Runs i (do_switch frame s)
  unfolding do_switch
  do_switch-Runs on cur asleep q lt ne =
      let path =
        ap (λ b. if b then elim s.current [ none ↦ s | some k ↦ switch_from k frame s ] else s) on
        ∙ ap (λ o. elim o [ none ↦ s | some k ↦ switch_from k frame s ]) cur in
      subst (Runs i) (sym path) (switch_from-Runs asleep q lt ne)

-- `sched_kill` leaves its process in the ready queue: with the scheduler on, a process `c` current
-- and no process asleep, if the process that it finds for the pid is the head of the ready queue
-- and not `c`, that process is current and RUNNING again after the next switch.
pub kill-Runs_again :
    (pid i c frame : ℕ) (s : Sched)
    → s.initialized ≡ true
    → s.current ≡ some c
    → s.sleep_queue ≡ none
    → s.ready_queue ≡ some i
    → find_index (λ (p : Proc). p.pid == pid && not (is p.state unused)) s.procs ≡ some i
    → i ≢ c
    → Runs i (do_switch frame (kill pid s).0)
unfolding kill
kill-Runs_again pid i c frame s on cur asleep q found ne =
    let P : Sched × Bool → Type 0 = λ r. Runs i (do_switch frame r.0) in
    let (lt, _) =
      find_index_sound (λ (p : Proc). p.pid == pid && not (is p.state unused)) s.procs blank
        found in
    if_known P s.initialized _ on (
      elim_some P _ _ _ found (
        do_switch-Runs i c frame
          (put i (record (at s i) { state = zombie; exit_code = negsuc 0 }) s) on cur asleep q
          (omega (
            arith,
            lt,
            length-set s.procs i (record (at s i) { state = zombie; exit_code = negsuc 0 }),
          ))
          ne))
