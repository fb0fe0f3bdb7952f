-- ===== src/Net/Tests.antt =====
-- The theorems about the network stack at concrete inputs.
use utms.Net.State.{Env, ArpEntry, NetState}
use utms.Base.{
  ◌^◌, ◌≤◌, ◌↔◌, ℕ, ◌+◌, ◌%◌, ◌<◌, ◌≡◌, ◌⊎◌, refl, true, false, List, [], ◌∷◌, some, arith, length,
}
use utms.Net.Ip.{hlen_of, sealed_header, handle_packet, Delivery, total_of}
use utms.Base.Int.{pos, negsuc, is_negative, to_size}
use utms.Net.Endian.{bswap16}
use utms.Net.Checksum.{ip_checksum, fold_carry, carry_fuel}
use utms.Net.Checksum.Verify.{fold_carry-lt}
use utms.Net.Arp.{lookup, add}
use utms.Net.Arp.Cache.{IsPacked, free, used, or_else, answer, evicted, lookup-add}
use utms.Net.Ip.Header.{sealed_header-verifies}
use utms.Net.Ip.Deliver.{Handled, handle_packet-Handled, len_of_delivery}
use utms.Net.Icmp.{reply_to}
use utms.Net.Icmp.Reply.{reply_to-verifies}
use utms.Net.Udp
use utms.Net.Udp.{Port, datagram}
use utms.Net.Udp.Deliver.{Outcome, handle_packet-Outcome}
use utms.Net.Udp.Checksum.{receiver_check, datagram-verifies_iff}

fold_carry-lt_example : fold_carry carry_fuel 4294967295 < 65536
fold_carry-lt_example = fold_carry-lt 4294967295 (omega arith)

abbrev cache : List ArpEntry
cache =
    record { ip = 7; mac = 1 ∷ []; valid = true } ∷ record { ip = 0; mac = []; valid = false } ∷ []

lookup-add_example :
    (lookup 7 (add 7 (2 ∷ []) cache) ≡ or_else (lookup 7 (evicted cache)) (answer 7 7 (2 ∷ [])))
    × (length (add 7 (2 ∷ []) cache) ≡ length cache)
    × IsPacked (add 7 (2 ∷ []) cache)
lookup-add_example = lookup-add 7 7 (2 ∷ []) cache (used refl (free (refl, tt))) (omega arith)

sealed_header-verifies_example : ip_checksum (sealed_header 40 6 0x0f02000a 0x0202000a) ≡ 0
sealed_header-verifies_example = sealed_header-verifies 40 6 0x0f02000a 0x0202000a (omega arith)

abbrev net : NetState
net = record {
  our_mac = 2 ∷ 0 ∷ 0 ∷ 0 ∷ 0 ∷ 1 ∷ [];
  our_ip = 0x0f02000a;
  our_netmask = 0x00ffffff;
  our_gateway = 0;
  network_ready = true;
  nic_present = true;
  arp_cache = cache;
  frames = [];
}

-- A packet for us, whose total length field is 0.
abbrev short_packet : List ℕ
short_packet =
    0x45 ∷ 0 ∷ 0 ∷ 0 ∷ 0 ∷ 0 ∷ 0 ∷ 0 ∷ 64 ∷ 1 ∷ 0 ∷ 0 ∷ 10 ∷ 0 ∷ 2 ∷ 2 ∷ 10 ∷ 0 ∷ 2 ∷ 15 ∷ 8 ∷ []

abbrev short_delivery : Delivery
short_delivery = record {
  proto = 1;
  payload = 8 ∷ [];
  len = negsuc 19;
  src = 0x0202000a;
  dst = 0x0f02000a;
}

short_delivered : handle_packet net short_packet ≡ some short_delivery
unfolding handle_packet bswap16
short_delivered = refl

handle_packet-Handled_example : Handled net short_packet (handle_packet net short_packet)
handle_packet-Handled_example = handle_packet-Handled net short_packet (omega arith) (omega arith)

len_of_delivery_example :
    ((hlen_of short_packet ≤ total_of short_packet)
      × (to_size short_delivery.len ≤ length short_delivery.payload))
    ⊎ ((total_of short_packet < hlen_of short_packet)
        × (is_negative short_delivery.len ≡ true)
        × (2 ^ 63 ≤ to_size short_delivery.len))
len_of_delivery_example = len_of_delivery net short_packet short_delivery short_delivered

-- An echo request with the data "ping".
abbrev request : List ℕ
request = 8 ∷ 0 ∷ 0 ∷ 0 ∷ 0x12 ∷ 0x34 ∷ 0 ∷ 1 ∷ 112 ∷ 105 ∷ 110 ∷ 103 ∷ []

reply_to-verifies_example : ip_checksum (reply_to 12 request) ≡ 0
reply_to-verifies_example = reply_to-verifies 12 request (omega arith) (omega arith)

abbrev question : List ℕ
question = 112 ∷ 105 ∷ []

datagram-verifies_iff_example :
    (receiver_check 0x0f02000a 0x0202000a (datagram 0x0f02000a 0x0202000a 53 1024 question) ≡ 0)
    ↔ ((length question + 25) % 257 ≡ 0)
datagram-verifies_iff_example =
    datagram-verifies_iff 0x0f02000a 0x0202000a 53 1024 question (omega arith) (omega arith)

abbrev env : Env
env = record { alloc = λ site n. true; spin = λ k s. s }

-- A datagram from port 53 to port 1024 with two bytes.
abbrev answer_packet : List ℕ
answer_packet = 0 ∷ 53 ∷ 4 ∷ 0 ∷ 0 ∷ 10 ∷ 0 ∷ 0 ∷ 7 ∷ 9 ∷ []

abbrev ports : List Port
ports = record { used = true; port = 1024; buf = some (0 ∷ 0 ∷ 0 ∷ 0 ∷ []); len = 0; cap = 4 } ∷ []

handle_packet-Outcome_example :
    Outcome env answer_packet (pos 10) ports (Udp.handle_packet env answer_packet (pos 10) ports)
handle_packet-Outcome_example = handle_packet-Outcome env answer_packet (pos 10) ports
