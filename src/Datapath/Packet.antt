-- ===== src/Datapath/Packet.antt =====
-- The bytes of a packet (ebpf/src/main.rs): loads, stores, and the rewrites of addresses and ports
-- with their checksums. A multi-byte integer is read as it stands on the wire, in little-endian order.
use beep.Common.{
  ℕ, zero, suc, ◌+◌, ◌*◌, Bool, false, ◌&&◌, not, Option, none, some, List, ◌++◌, ◌==◌, leb,
  if◌then◌else◌, length, take, drop, get_or,
}
use beep.Flow.{ipproto_tcp, ipproto_udp}
use beep.Wire.{u16_bytes, u32_bytes, u16_of_bytes, u32_of_bytes, slice}
use beep.Datapath.{
  Skb, Kernel, Hook, ◌>>=◌, ◌>>◌, pure, unless, or_none, skb_of, change_skb, accepted_or_none,
}

-- `ETH_P_IPV4` and `ETH_P_IPV6`, in wire order.
abbrev pub eth_hlen : ℕ
eth_hlen = 14

abbrev pub eth_p_ipv4 : ℕ
eth_p_ipv4 = 0x0008

abbrev pub eth_p_ipv6 : ℕ
eth_p_ipv6 = 0xdd86

abbrev pub ip_hlen : ℕ
ip_hlen = 20

abbrev pub ip6_hlen : ℕ
ip6_hlen = 40

-- `ctx.load` of `n` bytes at an offset: nothing behind the packet's end.
unfoldable pub load : ℕ → ℕ → Skb → Option (List ℕ)
load n offset skb =
    if leb (offset + n) (length skb.data_bytes) then some (slice offset n skb.data_bytes) else none

-- `load_direct`: from the linear head only.
unfoldable pub load_direct : ℕ → ℕ → Skb → Option (List ℕ)
unfolding load
load_direct n offset skb = if leb (offset + n) skb.linear then load n offset skb else none

abbrev pub as_u8 : Option (List ℕ) → Option ℕ
as_u8 none = none
as_u8 (some b) = some (get_or b 0 0)

unfoldable pub as_u16 : Option (List ℕ) → Option ℕ
unfolding u16_of_bytes
as_u16 none = none
as_u16 (some b) = some (u16_of_bytes b)

unfoldable pub as_u32 : Option (List ℕ) → Option ℕ
unfolding u32_of_bytes
as_u32 none = none
as_u32 (some b) = some (u32_of_bytes b)

-- A load of a hook, which ends with `None` where there is nothing to load.
unfoldable pub loaded : {A : Type 0} → (Skb → Option A) → Hook A
loaded f = skb_of f >>= or_none

abbrev pub is_served : ℕ → Bool
is_served proto = not (not (proto == ipproto_tcp) && not (proto == ipproto_udp))

-- The byte of TCP flags; other protocols have their payload there.
unfoldable pub tcp_flags_direct : ℕ → ℕ → Hook ℕ
unfolding loaded
tcp_flags_direct proto l4_off =
    if proto == ipproto_tcp then loaded (λ s. as_u8 (load 1 (l4_off + 13) s)) else pure 0

abbrev pub write_at : ℕ → List ℕ → List ℕ → List ℕ
write_at offset b bytes = take offset bytes ++ (b ++ drop (offset + length b) bytes)

abbrev fits : ℕ → Skb → Option (Unit {0})
fits size skb = if leb size (length skb.data_bytes) then some tt else none

abbrev pub stored : ℕ → List ℕ → Skb → Skb
stored offset b skb = record skb { data_bytes = write_at offset b skb.data_bytes }

-- `ctx.store(..).ok()?`
unfoldable pub store : ℕ → List ℕ → Hook (Unit {0})
unfolding loaded
store offset b = do
  accepted_or_none
  loaded (fits (offset + length b))
  change_skb (stored offset b)

-- The four words of an address.
abbrev pub word : ℕ → List ℕ → ℕ
word i ip = u32_of_bytes (slice (i * 4) 4 ip)

-- `BPF_F_PSEUDO_HDR | 4`, and the size of a port.
abbrev pub pseudo_word : ℕ
pseudo_word = 20

abbrev pub port_size : ℕ
port_size = 2

-- `udp_csum_disabled`
unfoldable pub csum_disabled : ℕ → ℕ → Hook Bool
unfolding loaded as_u16
csum_disabled proto udp_csum_off =
    if proto == ipproto_udp
    then (loaded (λ s. as_u16 (load 2 udp_csum_off s)) >>= λ c. pure (c == 0))
    else pure false

-- `AddressRewriteChecksums`
pub data AddressRewriteChecksums : Type 0 where
  ipv4_header_and_l4_pseudo l4_pseudo_only : AddressRewriteChecksums

abbrev pub address_rewrite_checksums : Bool → AddressRewriteChecksums
address_rewrite_checksums is_ipv6 = if is_ipv6 then l4_pseudo_only else ipv4_header_and_l4_pseudo

module _ (kernel : Kernel) where
  unfoldable pub l3_csum_replace : ℕ → ℕ → ℕ → ℕ → Hook (Unit {0})
  l3_csum_replace offset from to size = do
    accepted_or_none
    change_skb
        (λ s. record s { data_bytes = kernel.l3_csum_replace offset from to size s.data_bytes })

  unfoldable pub l4_csum_replace : ℕ → ℕ → ℕ → ℕ → Hook (Unit {0})
  l4_csum_replace offset from to size = do
    accepted_or_none
    change_skb
        (λ s. record s { data_bytes = kernel.l4_csum_replace offset from to size s.data_bytes })

  abbrev fix_header : AddressRewriteChecksums → ℕ → ℕ → Hook (Unit {0})
  fix_header ipv4_header_and_l4_pseudo old_ip new_ip = l3_csum_replace 24 old_ip new_ip 4
  fix_header l4_pseudo_only old_ip new_ip = pure tt

  -- `IP_CSUM`, `TCP_CSUM` and `UDP_CSUM` are 24, 50 and 40.
  unfoldable pub rewrite_ip_port : ℕ → ℕ → ℕ → ℕ → ℕ → ℕ → ℕ → Hook (Unit {0})
  unfolding csum_disabled l3_csum_replace l4_csum_replace store u16_bytes u32_bytes
  rewrite_ip_port ip_off old_ip new_ip port_off old_port new_port proto =
      let l4_csum_off = if proto == ipproto_tcp then 50 else 40 in
      do
        disabled ← csum_disabled proto 40
        fix_header (address_rewrite_checksums false) old_ip new_ip
        unless disabled (do
          l4_csum_replace l4_csum_off old_ip new_ip pseudo_word
          l4_csum_replace l4_csum_off old_port new_port port_size)
        store ip_off (u32_bytes new_ip)
        store port_off (u16_bytes new_port)

  -- The words that are left, from the `i`-th.
  unfoldable pub replace_words : ℕ → ℕ → ℕ → List ℕ → List ℕ → Hook (Unit {0})
  unfolding l4_csum_replace
  replace_words zero i l4_csum_off old_ip new_ip = pure tt
  replace_words (suc left) i l4_csum_off old_ip new_ip = do
    l4_csum_replace l4_csum_off (word i old_ip) (word i new_ip) pseudo_word
    replace_words left (i + 1) l4_csum_off old_ip new_ip

  unfoldable pub rewrite_ipv6_port : ℕ → List ℕ → List ℕ → ℕ → ℕ → ℕ → ℕ → ℕ → ℕ → Hook (Unit {0})
  unfolding csum_disabled l4_csum_replace replace_words store u16_bytes
  rewrite_ipv6_port ip_off old_ip new_ip port_off old_port new_port proto l4_csum_off udp_csum_off =
      do
        disabled ← csum_disabled proto udp_csum_off
        unless disabled (do
          replace_words 4 0 l4_csum_off old_ip new_ip
          l4_csum_replace l4_csum_off old_port new_port port_size)
        store ip_off new_ip
        store port_off (u16_bytes new_port)

  unfoldable pub rewrite_l4_port : ℕ → ℕ → ℕ → ℕ → ℕ → Hook (Unit {0})
  unfolding csum_disabled l4_csum_replace store u16_bytes
  rewrite_l4_port l4_off port_off old_port new_port proto =
      let l4_csum_off = if proto == ipproto_tcp then l4_off + 16 else l4_off + 6 in
      if old_port == new_port then pure tt else (do
        disabled ← csum_disabled proto (l4_off + 6)
        unless disabled (l4_csum_replace l4_csum_off old_port new_port port_size)
        store port_off (u16_bytes new_port))
