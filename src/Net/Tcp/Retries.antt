-- ===== src/Net/Tcp/Retries.antt =====
-- The retransmission timer.
use utms.Net.Tcp.Output.{segment}
use utms.Base.{ℕ, suc, ◌≡◌, List, [], Option, none}
use utms.Net.Tcp.State.{Socket, Tcp, at, put}
use utms.Net.Tcp.Timer.{probe_flags}

-- A call of `tcp_send_packet` gave -1, or left its socket with no retry counted.
data Outcome (i : ℕ) (r : Tcp × Option ℕ) : Type 0 where
  refused : r.1 ≡ none → Outcome i r
  zeroed : (at r.0 i).retries ≡ 0 → Outcome i r

-- The socket with its retry counted, as `tcp_timer` hands it to `tcp_send_packet`.
abbrev pub counted : ℕ → Tcp → Tcp
counted i t = put i (record (at t i) { retries = suc (at t i).retries; timestamp = t.ticks }) t

-- The segment of a probe, as `tcp_send_packet` makes it.
abbrev pub probe : Socket → List ℕ
probe s = segment s (probe_flags s) []
