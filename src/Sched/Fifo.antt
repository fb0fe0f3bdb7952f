-- ===== src/Sched/Fifo.antt =====
-- The ready queue as a list of processes: `enqueue_ready` appends, `dequeue_ready` takes the head.
use mathlib.Core.Path.{subst}
use utms.Base.{
  if◌then◌else◌, ap, ◌∙◌, ℕ, ◌<◌, ◌≡◌, ◌≢◌, refl, arith, List, [], ◌∷◌, ◌++◌, Option, none, some,
  All, length, set, get_or, length-set, get_or-set_self, get_or-set_ne, sym,
}
use utms.Sched.State.{Proc, Sched, ready, at, blank, is}
use utms.Sched.Queue.{enqueue_ready, dequeue_ready, link, append, append_at, pop}

-- The links from `o` on run through `q`.
abbrev pub Links : List Proc → Option ℕ → List ℕ → Type 0
Links ps o [] = o ≡ none
Links ps o (i ∷ q) = (o ≡ some i) × (i < length ps) × Links ps (get_or ps i blank).next q

abbrev pub last : List ℕ → Option ℕ
last [] = none
last (i ∷ []) = some i
last (i ∷ j ∷ q) = last (j ∷ q)

abbrev pub Apart : ℕ → List ℕ → Type 0
Apart i q = All (λ j. j ≢ i) q

abbrev pub Distinct : List ℕ → Type 0
Distinct [] = Unit
Distinct (i ∷ q) = Apart i q × Distinct q

-- The ready queue of a state holds the processes `q`, the oldest first.
pub record IsQueue (s : Sched) (q : List ℕ) : Type 0 where
  pub links : Links s.procs s.ready_queue q
  pub tail : s.ready_queue_tail ≡ last q
  pub distinct : Distinct q

-- A write beside the queue keeps it.
pub Links-set :
    (ps : List Proc) (o : Option ℕ) (q : List ℕ) (i : ℕ) (p : Proc)
    → Apart i q
    → Links ps o q
    → Links (set ps i p) o q
Links-set ps o [] i p a h = h
Links-set ps o (j ∷ q) i p a h =
    let same = get_or-set_ne ps i j p blank (λ e. a.0 (sym e)) in
    (h.0, omega (arith, length-set ps i p, h.1), rw same (Links-set ps _ q i p a.1 h.2))

last-Apart : (i j : ℕ) (q : List ℕ) {t : ℕ} → Apart i (j ∷ q) → last (j ∷ q) ≡ some t → t ≢ i
last-Apart i j [] a e = λ f. a.0 (ground arith)
last-Apart i j (k ∷ q) a e = last-Apart i k q a.1 e

-- Linking the last process of a queue to `n` lengthens the queue.
Links-append :
    (ps : List Proc) (i : ℕ) (q : List ℕ) (n t : ℕ) (p : Proc)
    → Links ps (some i) (i ∷ q)
    → Distinct (i ∷ q)
    → last (i ∷ q) ≡ some t
    → Apart n (i ∷ q)
    → n < length ps
    → (get_or ps n blank).next ≡ none
    → p.next ≡ some n
    → Links (set ps t p) (some i) ((i ∷ q) ++ (n ∷ []))
Links-append ps i [] n t p h d e a lt nil pn =
    let it : i ≡ t = ground arith in
    let self = get_or-set_self ps t p blank (rw (sym it) h.1) in
    let other = get_or-set_ne ps t n p blank (λ f. a.0 (it ∙ f)) in
    let len = length-set ps t p in
    (
      refl,
      omega (arith, len, h.1),
      (
        ap (λ (r : Proc). r.next) (ap (λ k. get_or (set ps t p) k blank) it ∙ self) ∙ pn,
        omega (arith, len, lt),
        ap (λ (r : Proc). r.next) other ∙ nil,
      ),
    )
Links-append ps i (k ∷ q) n t p h d e a lt nil pn =
    let ti : t ≢ i = last-Apart i k q d.0 e in
    let same = get_or-set_ne ps t i p blank ti in
    let next : (get_or ps i blank).next ≡ some k = h.2.0 in
    let rest : Links ps (some k) (k ∷ q) = (refl, h.2.1, h.2.2) in
    (
      refl,
      omega (arith, length-set ps t p, h.1),
      rw (same, next) (Links-append ps k q n t p rest d.1 e a.1 lt nil pn),
    )

last-some : (i : ℕ) (q : List ℕ) → (t : ℕ) × (last (i ∷ q) ≡ some t)
last-some i [] = (i, refl)
last-some i (k ∷ q) = last-some k q

last-append : (i : ℕ) (q : List ℕ) (n : ℕ) → last ((i ∷ q) ++ (n ∷ [])) ≡ some n
last-append i [] n = refl
last-append i (k ∷ q) n = last-append k q n

Apart-append : (j : ℕ) (q : List ℕ) (n : ℕ) → Apart j q → n ≢ j → Apart j (q ++ (n ∷ []))
Apart-append j [] n a h = (h, tt)
Apart-append j (i ∷ q) n a h = (a.0, Apart-append j q n a.1 h)

Distinct-append : (q : List ℕ) (n : ℕ) → Distinct q → Apart n q → Distinct (q ++ (n ∷ []))
Distinct-append [] n d a = (tt, tt)
Distinct-append (i ∷ q) n d a =
    (Apart-append i q n d.0 (λ e. a.0 (sym e)), Distinct-append q n d.1 a.1)

module _ (i : ℕ) (s : Sched) (r : (at s i).state ≡ ready) where
  enqueue_ready-first :
      s.ready_queue ≡ none
      → enqueue_ready i s
        ≡ record (link i none s) { ready_queue = some i; ready_queue_tail = some i }
  unfolding enqueue_ready
  enqueue_ready-first h = rw (r, h) refl

  enqueue_ready-behind :
      {j t : ℕ}
      → s.ready_queue ≡ some j
      → s.ready_queue_tail ≡ some t
      → enqueue_ready i s ≡ record (link t (some i) (link i none s)) { ready_queue_tail = some i }
  unfolding enqueue_ready
  enqueue_ready-behind h e =
      let s1 = link i none s in
      ap (λ b. if is b ready then append i s1 else s) r
      ∙ ap
          (λ o. elim o [
            | none ↦ record s1 { ready_queue = some i; ready_queue_tail = some i }
            | some k ↦ append_at s.ready_queue_tail i s1
          ])
          h
      ∙ ap (λ o. append_at o i s1) e

Links-from : (ps : List Proc) {o o' : Option ℕ} (q : List ℕ) → o' ≡ o → Links ps o q → Links ps o' q
Links-from ps {o} {o'} q e h = subst (λ x. Links ps x q) (sym e) h

-- A READY process of the table that is not in the ready queue joins it as its last; the others keep
-- their order.
pub enqueue_ready-appends :
    (i : ℕ) (s : Sched) (q : List ℕ)
    → IsQueue s q
    → (at s i).state ≡ ready
    → i < length s.procs
    → Apart i q
    → IsQueue (enqueue_ready i s) (q ++ (i ∷ []))
enqueue_ready-appends i s [] h r lt a =
    let self = get_or-set_self s.procs i (record (at s i) { next = none }) blank lt in
    rw (enqueue_ready-first i s r h.links) (record {
      links = (
        refl,
        omega (arith, length-set s.procs i (record (at s i) { next = none }), lt),
        ap (λ (p : Proc). p.next) self,
      );
      tail = refl;
      distinct = (tt, tt);
    })
enqueue_ready-appends i s (j ∷ q) h r lt a =
    let (t, e) = last-some j q in
    let p = record (at s i) { next = none } in
    let self = get_or-set_self s.procs i p blank lt in
    let len = length-set s.procs i p in
    let extended =
      Links-from (set (set s.procs i p) t (record (at (link i none s) t) { next = some i }))
        ((j ∷ q) ++ (i ∷ [])) h.links.0
        (Links-append (set s.procs i p) j q i t (record (at (link i none s) t) { next = some i })
          (Links-from (set s.procs i p) (j ∷ q) (sym h.links.0)
            (Links-set s.procs s.ready_queue (j ∷ q) i p a h.links))
          h.distinct e a (omega (arith, len, lt)) (ap (λ (x : Proc). x.next) self) refl) in
    rw (enqueue_ready-behind i s r h.links.0 (h.tail ∙ e)) (record {
      links = extended;
      tail = sym (last-append j q i);
      distinct = Distinct-append (j ∷ q) i h.distinct a;
    })

pub dequeue_ready-head :
    (s : Sched) (i : ℕ) → s.ready_queue ≡ some i → dequeue_ready s ≡ (pop i s, some i)
unfolding dequeue_ready
dequeue_ready-head s i h = rw h refl

pop-tail :
    (i : ℕ) (s : Sched) (q : List ℕ) → IsQueue s (i ∷ q) → (pop i s).ready_queue_tail ≡ last q
pop-tail i s [] h = rw h.links.2 refl
pop-tail i s (j ∷ q) h = rw h.links.2.0 h.tail

-- The oldest process of a ready queue that is not empty is returned and leaves it; the others keep
-- their order.
pub dequeue_ready-takes_oldest :
    (s : Sched) (i : ℕ) (q : List ℕ)
    → IsQueue s (i ∷ q)
    → ((dequeue_ready s).1 ≡ some i) × IsQueue (dequeue_ready s).0 q
dequeue_ready-takes_oldest s i q h = rw (dequeue_ready-head s i h.links.0) (
  refl,
  record {
    links = Links-set s.procs _ q i (record (at s i) { next = none }) h.distinct.0 h.links.2;
    tail = pop-tail i s q h;
    distinct = h.distinct.1;
  },
)
