-- ===== src/Sched/Irq.antt =====
-- `sched_wake_irq` beside the ready queue.
use utms.Base.{
  true, ℕ, zero, suc, ◌≡◌, refl, if_elim, ◌∙◌, get_or-set-keeps, not, ◌&&◌, ◌^◌, has_bit,
}
use Prim.Native.Nat.{bit_or}
use utms.Sched.State.{Proc, Sched, at, put, is, ready, running, blank, max_processes}
use utms.Sched.Calls.{wake_irq, irq_from, irq_one}

-- The second state has the queues and the links of the first.
pub record SameQueues (s t : Sched) : Type 0 where
  pub head : t.ready_queue ≡ s.ready_queue
  pub tail : t.ready_queue_tail ≡ s.ready_queue_tail
  pub links : (j : ℕ) → (at t j).next ≡ (at s j).next

mark-SameQueues :
    (i : ℕ) (p : Proc) (s : Sched)
    → p.next ≡ (at s i).next
    → SameQueues s (record (put i p s) { need_resched = true })
mark-SameQueues i p s e = record {
  head = refl;
  tail = refl;
  links = λ j. get_or-set-keeps (λ (r : Proc). r.next) s.procs i j p blank e;
}

irq_one-SameQueues : (irq i : ℕ) (s : Sched) → SameQueues s (irq_one irq i s)
unfolding irq_one
irq_one-SameQueues irq i s =
    if_elim (SameQueues s)
      (not (is (at s i).state ready)
        && (not (is (at s i).state running) && has_bit (2 ^ irq) (at s i).irq_mask))
      (mark-SameQueues i
        (record (at s i) { irq_pending = bit_or (at s i).irq_pending (2 ^ irq); state = ready }) s
        refl)
      (record { head = refl; tail = refl; links = λ j. refl })

irq_from-SameQueues : (irq left i : ℕ) (s : Sched) → SameQueues s (irq_from irq left i s)
unfolding irq_from
irq_from-SameQueues irq zero i s = record { head = refl; tail = refl; links = λ j. refl }
irq_from-SameQueues irq (suc left) i s =
    let a = irq_one-SameQueues irq i s in
    let b = irq_from-SameQueues irq left (suc i) (irq_one irq i s) in
    record { head = b.head ∙ a.head; tail = b.tail ∙ a.tail; links = λ j. b.links j ∙ a.links j }

-- `sched_wake_irq` puts no process into the ready queue: its head, its tail and every link stay,
-- also those of the processes that the interrupt makes ready.
pub wake_irq-queues_nothing : (irq : ℕ) (s : Sched) → SameQueues s (wake_irq irq s)
unfolding wake_irq
wake_irq-queues_nothing irq s = irq_from-SameQueues irq max_processes 0 s
