-- ===== src/Datapath/Parse.antt =====
-- The parse of a packet that comes in over an uplink (ebpf/src/main.rs). `l2_hlen` is the const generic
-- of the source: 14, or 0 on an uplink without a link layer.
use beep.Common.{
  ℕ, ◌+◌, ◌/◌, ◌%◌, Bool, true, false, ◌&&◌, Option, none, some, List, ◌==◌, if◌then◌else◌,
}
use beep.Flow.{ipproto_tcp}
use beep.Maps.{LbFrontKey}
use beep.Wire.{ipv4_mapped_v6}
use beep.Datapath.{Skb}
use beep.Datapath.Packet.{
  load, load_direct, as_u8, as_u16, as_u32, is_served, eth_hlen, ip_hlen, ip6_hlen, eth_p_ipv4,
  eth_p_ipv6,
}

pub record IngressFlow : Type 0 where
  pub front : LbFrontKey
  pub client_ip : List ℕ
  pub client_port : ℕ
  pub ethertype : ℕ
  pub tcp_flags : ℕ

-- The reads of a parse: the first that fails ends it, and so does a failed test.
infixl 5 ◌>>=◌
abbrev ◌>>=◌ : {A B : Type 0} → Option A → (A → Option B) → Option B
none >>= f = none
some a >>= f = f a

abbrev only_if : {A : Type 0} → Bool → Option A → Option A
only_if true rest = rest
only_if false rest = none

-- Offset 0 is read by the helper, every other one directly.
abbrev pub version_byte : ℕ → Skb → Option ℕ
version_byte l2_hlen s =
    if l2_hlen == 0 then as_u8 (load 1 0 s) else as_u8 (load_direct 1 l2_hlen s)

abbrev parsed_flags : ℕ → ℕ → Skb → Option ℕ
parsed_flags proto l4_off s =
    if proto == ipproto_tcp then as_u8 (load_direct 1 (l4_off + 13) s) else some 0

unfoldable pub try_uplink_ingress_headers_v4 : ℕ → Skb → Option IngressFlow
unfolding load_direct load as_u16 as_u32
try_uplink_ingress_headers_v4 l2_hlen s =
    let l4_off = l2_hlen + ip_hlen in
    version_byte l2_hlen s >>= λ ver_ihl. only_if (ver_ihl / 16 == 4 && ver_ihl % 16 == 5) (
      as_u8 (load_direct 1 (l2_hlen + 9) s) >>= λ proto. only_if (is_served proto) (
        as_u32 (load_direct 4 (l2_hlen + 16) s) >>= λ dst_ip.
        as_u16 (load_direct 2 (l4_off + 2) s) >>= λ dst_port.
        as_u32 (load_direct 4 (l2_hlen + 12) s) >>= λ src_ip.
        as_u16 (load_direct 2 l4_off s) >>= λ src_port. parsed_flags proto l4_off s >>= λ tcp_flags.
        some (record {
          front = record { front_ip = ipv4_mapped_v6 dst_ip; front_port = dst_port; proto = proto };
          client_ip = ipv4_mapped_v6 src_ip;
          client_port = src_port;
          ethertype = eth_p_ipv4;
          tcp_flags = tcp_flags;
        })))

unfoldable pub try_uplink_ingress_headers_v6 : ℕ → Skb → Option IngressFlow
unfolding load_direct load as_u16
try_uplink_ingress_headers_v6 l2_hlen s =
    let l4_off = l2_hlen + ip6_hlen in
    version_byte l2_hlen s >>= λ ver. only_if (ver / 16 == 6) (
      as_u8 (load_direct 1 (l2_hlen + 6) s) >>= λ proto. only_if (is_served proto) (
        load_direct 16 (l2_hlen + 24) s >>= λ front_ip.
        as_u16 (load_direct 2 (l4_off + 2) s) >>= λ dst_port.
        load_direct 16 (l2_hlen + 8) s >>= λ client_ip.
        as_u16 (load_direct 2 l4_off s) >>= λ src_port. parsed_flags proto l4_off s >>= λ tcp_flags.
        some (record {
          front = record { front_ip = front_ip; front_port = dst_port; proto = proto };
          client_ip = client_ip;
          client_port = src_port;
          ethertype = eth_p_ipv6;
          tcp_flags = tcp_flags;
        })))

abbrev by_ethertype : ℕ → ℕ → Skb → Option IngressFlow
by_ethertype l2_hlen ethertype s =
    if ethertype == eth_p_ipv4
    then try_uplink_ingress_headers_v4 l2_hlen s
    else if ethertype == eth_p_ipv6
    then try_uplink_ingress_headers_v6 l2_hlen s
    else none

abbrev by_version : ℕ → ℕ → Skb → Option IngressFlow
by_version l2_hlen ver s =
    if ver / 16 == 4
    then try_uplink_ingress_headers_v4 l2_hlen s
    else if ver / 16 == 6
    then try_uplink_ingress_headers_v6 l2_hlen s
    else none

unfoldable pub try_uplink_ingress_headers : ℕ → Skb → Option IngressFlow
unfolding load_direct load as_u16 try_uplink_ingress_headers_v4 try_uplink_ingress_headers_v6
try_uplink_ingress_headers l2_hlen s =
    if l2_hlen == eth_hlen
    then (as_u16 (load_direct 2 12 s) >>= λ ethertype. by_ethertype l2_hlen ethertype s)
    else (as_u8 (load 1 0 s) >>= λ ver. by_version l2_hlen ver s)

-- The dispatch on the header length of the uplink.
unfoldable pub ingress_flow : ℕ → Skb → Option IngressFlow
unfolding try_uplink_ingress_headers
ingress_flow l2_hlen s =
    if l2_hlen == 0
    then try_uplink_ingress_headers 0 s
    else if l2_hlen == eth_hlen
    then try_uplink_ingress_headers eth_hlen s
    else none
