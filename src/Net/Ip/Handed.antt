-- ===== src/Net/Ip/Handed.antt =====
-- What `ip_send_packet` hands to the Ethernet layer.
use utms.Base.{
  if_cases, take-length_le, arith, refl, ap, ◌≡◌, ◌+◌, ◌++◌, ℕ, List, Option, none, some, length,
}
use utms.Base.Int.{pos}
use mathlib.Core.Path.{subst, sym}
use utms.Net.Ethernet.{net_eth_send, ethertype_ip}
use utms.Net.State.{NetState, Env, packet_site}
use utms.Net.Ip.{
  transmit, resolve, attempts, next_hop, sealed_header, Sent, sent, failed, ip_hdr_size,
  send_packet,
}

-- What `ip_send_packet` has done when it gives a number: a frame with the packet was handed to the
-- Ethernet layer, and nothing came after it.
pub record SentOn (env : Env) (dst proto : ℕ) (bytes : List ℕ) (src : ℕ) (net : NetState)
    : Type 0 where
  pub mac : List ℕ
  pub earlier : NetState
  pub frame :
      net
      ≡ net_eth_send env mac ethertype_ip
          (sealed_header (ip_hdr_size + length bytes) proto src dst ++ bytes)
          earlier

transmit-SentOn :
    (env : Env) (mac : List ℕ) (src dst proto : ℕ) (bytes : List ℕ) (s : NetState) {k : ℕ}
    → (transmit env mac src dst proto bytes (pos (length bytes)) s).1 ≡ sent k
    → SentOn env dst proto bytes src (transmit env mac src dst proto bytes (pos (length bytes)) s).0
unfolding transmit
transmit-SentOn env mac src dst proto bytes s {k} e =
    if_cases (λ (r : NetState × Sent). r.1 ≡ sent k → SentOn env dst proto bytes src r.0)
      (env.alloc packet_site (ip_hdr_size + length bytes))
      (λ b e. record {
        mac = mac;
        earlier = s;
        frame =
            ap
              (λ bs.
                net_eth_send env mac ethertype_ip
                  (sealed_header (ip_hdr_size + length bytes) proto src dst ++ bs) s)
              (take-length_le (length bytes) bytes (omega arith));
      })
      (λ b e. absurd (cc)) e

-- What follows the search for the hardware address.
abbrev with_mac : Env → ℕ → ℕ → ℕ → List ℕ → NetState × Option (List ℕ) → NetState × Sent
with_mac env src dst proto bytes (s, none) = (s, failed)
with_mac env src dst proto bytes (s, some m) =
    transmit env m src dst proto bytes (pos (length bytes)) s

with_mac-SentOn :
    (env : Env) (src dst proto : ℕ) (bytes : List ℕ) (r : NetState × Option (List ℕ)) {k : ℕ}
    → (with_mac env src dst proto bytes r).1 ≡ sent k
    → SentOn env dst proto bytes src (with_mac env src dst proto bytes r).0
with_mac-SentOn env src dst proto bytes (s, none) e = cc
with_mac-SentOn env src dst proto bytes (s, some m) e =
    transmit-SentOn env m src dst proto bytes s e

send_packet-with_mac :
    (env : Env) (dst proto : ℕ) (bytes : List ℕ) (s : NetState)
    → send_packet env dst proto bytes (pos (length bytes)) s
      ≡ with_mac env s.our_ip dst proto bytes (resolve env s.our_ip (next_hop dst s) attempts s)
unfolding send_packet
send_packet-with_mac env dst proto bytes s =
    split (resolve env s.our_ip (next_hop dst s) attempts s)
  where
    split :
        (r : NetState × Option (List ℕ))
        → ◌≡◌ {A = NetState × Sent}
            (elim r.1 [
              | none ↦ (r.0, failed)
              | some m ↦ transmit env m s.our_ip dst proto bytes (pos (length bytes)) r.0
            ])
            (with_mac env s.our_ip dst proto bytes r)
    split (s', none) = refl
    split (s', some m) = refl

pub send_packet-SentOn :
    (env : Env) (dst proto : ℕ) (bytes : List ℕ) (s : NetState) {k : ℕ}
    → (send_packet env dst proto bytes (pos (length bytes)) s).1 ≡ sent k
    → SentOn env dst proto bytes s.our_ip (send_packet env dst proto bytes (pos (length bytes)) s).0
send_packet-SentOn env dst proto bytes s {k} e =
    subst (λ (r : NetState × Sent). r.1 ≡ sent k → SentOn env dst proto bytes s.our_ip r.0)
      (sym (send_packet-with_mac env dst proto bytes s))
      (with_mac-SentOn env s.our_ip dst proto bytes _) e
