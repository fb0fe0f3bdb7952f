-- ===== src/Net/Ip/Deliver.antt =====
-- What `ip_handle_packet` lets through, and what it passes on as the length.
use utms.Net.Endian.{bswap16}
use utms.Net.Ip.{is_known}
use utms.Net.Ip.{is_known, Delivery, handle_packet, hlen_of, total_of, ip_hdr_size}
use utms.Base.{
  none, ◌*◌, ◌+◌, ◌!=◌, ◌||◌, ◌&&◌, not, ltb, min, if_cases, load32, refl, ap, Option, true, ℕ, ◌-◌,
  ◌/◌, ◌≤◌, ◌<◌, ◌≡◌, ◌⊎◌, inl, inr, ◌^◌, arith, List, some, length, drop, length-drop, byte_at,
}
use mathlib.Core.Path.{ap₂}
use utms.Base.Int.{sub_ℕ, is_negative, to_size}
use native.Mathlib.Decide.{dec_le}
use utms.Net.State.{NetState}

-- A packet that the handler of its protocol sees is IPv4, for this host or for all, and long enough
-- for its header.
record Accepted (s : NetState) (pkt : List ℕ) (d : Delivery) : Type 0 where
  pub version : byte_at pkt 0 / 16 ≡ 4
  pub header_min : ip_hdr_size ≤ hlen_of pkt
  pub header_in : hlen_of pkt ≤ length pkt
  pub for_us : (d.dst ≡ s.our_ip) ⊎ (d.dst ≡ 0xffffffff)
  pub payload : d.payload ≡ drop (hlen_of pkt) pkt
  pub len : d.len ≡ sub_ℕ (total_of pkt) (hlen_of pkt)

handle_packet-Accepted :
    (s : NetState) (pkt : List ℕ) (d : Delivery) → handle_packet s pkt ≡ some d → Accepted s pkt d
unfolding handle_packet
handle_packet-Accepted s pkt d h = ground arith

cover : (t h n : ℕ) → h ≤ t → t ≤ n → to_size (sub_ℕ t h) ≤ n - h
cover t h n p q = ground arith

short : (t h : ℕ) → t < h → is_negative (sub_ℕ t h) ≡ true
short t h p = ground arith

huge : (t h : ℕ) → t < h → h ≤ 60 → 2 ^ 63 ≤ to_size (sub_ℕ t h)
huge t h p q = ground arith

total_of-le : (pkt : List ℕ) → total_of pkt ≤ length pkt
total_of-le pkt = ground arith

-- The length that is passed on: if the total length field covers the header, at most the bytes
-- there are; if not, it is negative, and as a `size_t` at least 2^63.
pub len_of_delivery :
    (s : NetState) (pkt : List ℕ) (d : Delivery)
    → handle_packet s pkt ≡ some d
    → ((hlen_of pkt ≤ total_of pkt) × (to_size d.len ≤ length d.payload))
      ⊎ ((total_of pkt < hlen_of pkt) × (is_negative d.len ≡ true) × (2 ^ 63 ≤ to_size d.len))
len_of_delivery s pkt d h =
    let a = handle_packet-Accepted s pkt d h in
    elim (dec_le (hlen_of pkt) (total_of pkt)) [
      | yes le ↦ inl (
        le,
        rw (a.len, a.payload, length-drop)
            (cover (total_of pkt) (hlen_of pkt) (length pkt) le (total_of-le pkt)),
      )
      | no gt ↦ inr (
        omega arith,
        rw a.len (short (total_of pkt) (hlen_of pkt) (omega arith)),
        rw a.len (huge (total_of pkt) (hlen_of pkt) (omega arith) (omega arith)),
      )
    ]

-- The packets that have to be delivered, by their bytes: IPv4 with a header of five to fifteen
-- words, all of it received, for our address or for all, with ICMP, TCP or UDP inside.
pub record IsForUs (s : NetState) (pkt : List ℕ) : Type 0 where
  pub version_and_size : (69 ≤ byte_at pkt 0) × (byte_at pkt 0 < 80)
  pub received : 4 * (byte_at pkt 0 - 64) ≤ length pkt
  pub minimum : 20 ≤ length pkt
  pub address : (load32 pkt 16 ≡ s.our_ip) ⊎ (load32 pkt 16 ≡ 0xffffffff)
  pub protocol : (byte_at pkt 9 ≡ 1) ⊎ ((byte_at pkt 9 ≡ 6) ⊎ (byte_at pkt 9 ≡ 17))

-- The call of a handler: the bytes behind the header, and how many the packet says there are, the
-- total length being in network order and at most what was received.
pub record IsCall (pkt : List ℕ) (d : Delivery) : Type 0 where
  pub proto : d.proto ≡ byte_at pkt 9
  pub payload : d.payload ≡ drop (4 * (byte_at pkt 0 - 64)) pkt
  pub len :
      d.len
      ≡ sub_ℕ (min (256 * byte_at pkt 2 + byte_at pkt 3) (length pkt)) (4 * (byte_at pkt 0 - 64))
  pub src : d.src ≡ load32 pkt 12
  pub dst : d.dst ≡ load32 pkt 16

pub data Handled (s : NetState) (pkt : List ℕ) : Option Delivery → Type 0 where
  ignored : ¬ IsForUs s pkt → Handled s pkt none
  delivered : (d : Delivery) → IsForUs s pkt → IsCall pkt d → Handled s pkt (some d)

hlen_of-words : (pkt : List ℕ) → byte_at pkt 0 / 16 ≡ 4 → hlen_of pkt ≡ 4 * (byte_at pkt 0 - 64)
hlen_of-words pkt e = omega arith

total_of-bytes :
    (pkt : List ℕ)
    → byte_at pkt 2 < 256
    → byte_at pkt 3 < 256
    → total_of pkt ≡ min (256 * byte_at pkt 2 + byte_at pkt 3) (length pkt)
unfolding bswap16
total_of-bytes pkt a b = ground arith

-- A handler is called for exactly the packets that are IPv4 with a header of 20 bytes at least that
-- lies in the bytes received, for our address or for all, and of a protocol with a handler; it gets
-- the bytes behind the header, and as their number the total length field, read in network order
-- and cut to the bytes received, less the length of the header.
pub handle_packet-Handled :
    (s : NetState) (pkt : List ℕ)
    → byte_at pkt 2 < 256
    → byte_at pkt 3 < 256
    → Handled s pkt (handle_packet s pkt)
unfolding handle_packet
handle_packet-Handled s pkt high low =
    let total = total_of-bytes pkt high low in
    let P = Handled s pkt in
    if_cases P (ltb (length pkt) ip_hdr_size)
      (λ a. ignored (λ u. let m = u.minimum in ground arith))
      (λ a.
        if_cases P (byte_at pkt 0 / 16 != 4)
          (λ b. ignored (λ u. let v = u.version_and_size in ground arith))
          (λ b.
            if_cases P (ltb (hlen_of pkt) ip_hdr_size || ltb (length pkt) (hlen_of pkt))
              (λ c. ignored (λ u. let v = u.version_and_size in let r = u.received in ground arith))
              (λ c.
                if_cases P ((load32 pkt 16 != s.our_ip) && (load32 pkt 16 != 0xffffffff))
                  (λ d. ignored (λ u. let r = u.address in ground arith))
                  (λ d.
                    if_cases P (not (is_known (byte_at pkt 9)))
                      (λ e. ignored (λ u. let r = u.protocol in ground arith))
                      (λ e.
                        delivered _
                          (record {
                            version_and_size = ground arith;
                            received = ground arith;
                            minimum = ground arith;
                            address = ground arith;
                            protocol = ground arith;
                          })
                          (record {
                            proto = refl;
                            payload = ap (λ n. drop n pkt) (hlen_of-words pkt (ground arith));
                            len = ap₂ sub_ℕ total (hlen_of-words pkt (ground arith));
                            src = refl;
                            dst = refl;
                          }))))))
