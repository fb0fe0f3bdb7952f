-- ===== src/Net/Tcp/Sequence.antt =====
-- Sequence numbers: what `tcp_handle_packet` and `tcp_recv` together do to `rcv_nxt`.
use utms.Base.{ℕ, ◌+◌, ◌<◌, ◌^◌, ◌≡◌, arith, List, length, false, u32}
use utms.Net.Tcp.State.{Socket}
use utms.Net.Tcp.Input.{Segment, store, is_in_order}
use utms.Net.Tcp.Calls.{consume}

rcv_nxt-store :
    (chunk : List ℕ) (s : Socket)
    → 0 < length chunk
    → (store chunk s).rcv_nxt ≡ u32 (s.rcv_nxt + length chunk)
unfolding store
rcv_nxt-store chunk s h = ground arith

-- Once the process has read the bytes of a segment (at least one, fewer than 2^32), the segment
-- that follows it in the peer's numbering is not taken: `rcv_nxt` has counted the bytes twice.
pub next_segment_refused :
    (chunk : List ℕ) (s : Socket) (seg : Segment)
    → 0 < length chunk
    → length chunk < 2 ^ 32
    → seg.seq ≡ (store chunk s).rcv_nxt
    → is_in_order seg (consume (length chunk) (store chunk s)) ≡ false
unfolding consume
next_segment_refused chunk s seg p q e = ground (arith, rcv_nxt-store chunk s p)
