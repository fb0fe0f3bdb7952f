-- ===== src/Net/Tcp/Ring.antt =====
-- The positions of the receive ring.
use utms.Base.{ℕ, ◌+◌, ◌-◌, ◌≤◌, ◌<◌, ◌≡◌, ◌⊎◌, arith, true, List, length, All, All-set, All-get_or}
use native.Mathlib.Nat.{mod-eq_of_lt, mod-eq-sub-mod}
use native.Mathlib.Decide.{dec_lt}
use utms.Net.Tcp.State.{Socket, Tcp, blank, at, put}
use utms.Net.Tcp.Input.{store, space}
use utms.Net.Tcp.Calls.{consume}

-- The positions lie in the ring, and the tail is `count` bytes after the head, round the end. The
-- tail may stand at the end itself.
pub record RingAt (size head tail count : ℕ) : Type 0 where
  pub head_in : head < size
  pub tail_in : tail ≤ size
  pub count_in : count ≤ size
  pub distance : (tail ≡ head + count) ⊎ (tail + size ≡ head + count) ⊎ (tail ≡ head + count + size)

abbrev pub RingOk : Socket → Type 0
RingOk s = RingAt s.rcv_buf_size s.rcv_buf_head s.rcv_buf_tail s.rcv_buf_count

-- What holds of every slot of the table.
abbrev pub SlotOk : Socket → Type 0
SlotOk s = s.used ≡ true → RingOk s

pub record TableOk (t : Tcp) : Type 0 where
  pub slots : All SlotOk t.sockets

pub blank-SlotOk : SlotOk blank
blank-SlotOk h = cc

pub at-SlotOk : (t : Tcp) (i : ℕ) → TableOk t → SlotOk (at t i)
at-SlotOk t i h = All-get_or SlotOk t.sockets i blank h.slots blank-SlotOk

pub put-TableOk : (i : ℕ) (s : Socket) (t : Tcp) → TableOk t → SlotOk s → TableOk (put i s t)
put-TableOk i s t h p = record { slots = All-set SlotOk t.sockets i s h.slots p }

-- Only the table of sockets counts.
pub same-TableOk : (t t' : Tcp) → t'.sockets ≡ t.sockets → TableOk t → TableOk t'
same-TableOk t t' e h = record { slots = rw e h.slots }

pub store-RingOk :
    (chunk : List ℕ) (s : Socket) → RingOk s → length chunk ≤ space s → RingOk (store chunk s)
unfolding store
store-RingOk chunk s r h = ground arith

pub consume-RingOk : (n : ℕ) (s : Socket) → RingOk s → n ≤ s.rcv_buf_count → RingOk (consume n s)
unfolding consume
consume-RingOk n s r h = elim (dec_lt (s.rcv_buf_head + n) s.rcv_buf_size) [
  | yes lt ↦ ground (arith, mod-eq_of_lt lt)
  | no ge ↦ ground (
    arith,
    mod-eq-sub-mod {n = s.rcv_buf_head + n} {m = s.rcv_buf_size} (omega arith),
    mod-eq_of_lt {n = s.rcv_buf_head + n - s.rcv_buf_size} {m = s.rcv_buf_size} (omega arith),
  )
]
