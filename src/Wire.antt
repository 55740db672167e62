-- ===== src/Wire.antt =====
-- Addresses, flow keys and Geneve options as bytes (common/src/lib.rs). A `[u8; n]` is a list of
-- numbers, and native byte order is little-endian: the only order that the program supports.
pub mod Bytes
pub mod Address
pub mod FlowKey
pub mod PodId
mod Tests
use beep.Common.{
  ℕ, ◌+◌, ◌*◌, ◌/◌, ◌%◌, ◌<◌, ◌≡◌, Bool, true, false, ◌&&◌, ◌||◌, Option, none, some, List, [], ◌∷◌,
  ◌++◌, ◌==◌, if◌then◌else◌, length, take, drop, get_or, replicate, All,
}

-- `x.to_ne_bytes()` of a `u16` and of a `u32`, and back.
unfoldable pub u16_bytes : ℕ → List ℕ
u16_bytes x = (x % 256) ∷ (x / 256 % 256) ∷ []

unfoldable pub u32_bytes : ℕ → List ℕ
u32_bytes x = (x % 256) ∷ (x / 256 % 256) ∷ (x / 65536 % 256) ∷ (x / 16777216 % 256) ∷ []

unfoldable pub u16_of_bytes : List ℕ → ℕ
u16_of_bytes b = get_or b 0 0 + get_or b 1 0 * 256

unfoldable pub u32_of_bytes : List ℕ → ℕ
u32_of_bytes b = get_or b 0 0 + get_or b 1 0 * 256 + get_or b 2 0 * 65536 + get_or b 3 0 * 16777216

-- `a == b` on byte arrays.
unfoldable pub bytes_eq : List ℕ → List ℕ → Bool
bytes_eq [] [] = true
bytes_eq [] (y ∷ ys) = false
bytes_eq (x ∷ xs) [] = false
bytes_eq (x ∷ xs) (y ∷ ys) = x == y && bytes_eq xs ys

-- `b[from..from + n]`
abbrev pub slice : ℕ → ℕ → List ℕ → List ℕ
slice from n b = take n (drop from b)

-- A `[u8; n]`
abbrev pub IsBytes : ℕ → List ℕ → Type 0
IsBytes n b = (length b ≡ n) × All (λ x. x < 256) b

-- `ipv4_mapped_v6`, `unmap_ipv4`
unfoldable pub ipv4_mapped_v6 : ℕ → List ℕ
unfolding u32_bytes
ipv4_mapped_v6 wire_ip = replicate 10 0 ++ 0xff ∷ 0xff ∷ u32_bytes wire_ip

unfoldable pub unmap_ipv4 : List ℕ → Option ℕ
unfolding bytes_eq u32_of_bytes
unmap_ipv4 v6 =
    if bytes_eq (slice 0 10 v6) (replicate 10 0) && bytes_eq (slice 10 2 v6) (0xff ∷ 0xff ∷ [])
    then some (u32_of_bytes (slice 12 4 v6))
    else none

unfoldable pub words_bytes : List ℕ → List ℕ
unfolding u32_bytes
words_bytes [] = []
words_bytes (w ∷ ws) = u32_bytes w ++ words_bytes ws

unfoldable pub tunnel_remote_addr : Bool → ℕ → List ℕ → List ℕ
unfolding words_bytes ipv4_mapped_v6
tunnel_remote_addr used_ipv6 remote_ipv4 remote_ipv6 =
    if used_ipv6 then words_bytes remote_ipv6 else ipv4_mapped_v6 remote_ipv4

-- `to_be` of a `u32` and of a `u16`
unfoldable pub wire_ip : ℕ → ℕ
wire_ip ip = ip % 256 * 16777216 + ip / 256 % 256 * 65536 + ip / 65536 % 256 * 256 + ip / 16777216

unfoldable pub wire_port : ℕ → ℕ
wire_port port = port % 256 * 256 + port / 256

-- `encode_tcp_flow_key`, `decode_tcp_flow_key`
unfoldable pub encode_tcp_flow_key : List ℕ → ℕ → List ℕ → ℕ → ℕ → List ℕ
unfolding u16_bytes
encode_tcp_flow_key client_ip client_port other_ip other_port proto =
    client_ip ++ (other_ip ++ (u16_bytes client_port ++ (u16_bytes other_port ++ proto ∷ [])))

-- client ip, client port, other ip, other port, protocol
abbrev pub FiveTuple : Type 0
FiveTuple = List ℕ × ℕ × List ℕ × ℕ × ℕ

unfoldable pub decode_tcp_flow_key : List ℕ → FiveTuple
unfolding u16_of_bytes
decode_tcp_flow_key key = (
  slice 0 16 key,
  u16_of_bytes (slice 32 2 key),
  slice 16 16 key,
  u16_of_bytes (slice 34 2 key),
  get_or key 36 0,
)

pub data FlowDirection : Type 0 where
  forward reverse port_memo : FlowDirection

abbrev pub direction_byte : FlowDirection → ℕ
direction_byte forward = 0
direction_byte reverse = 1
direction_byte port_memo = 2

unfoldable pub encode_flow_key : List ℕ → ℕ → List ℕ → ℕ → ℕ → FlowDirection → List ℕ
unfolding encode_tcp_flow_key
encode_flow_key client_ip client_port other_ip other_port proto direction =
    encode_tcp_flow_key client_ip client_port other_ip other_port proto
    ++ direction_byte direction ∷ []

-- The tag byte behind the five-tuple (`flow_key_direction` of src/lib.rs).
unfoldable pub flow_key_direction : List ℕ → Option FlowDirection
flow_key_direction key =
    let tag = get_or key 37 0 in
    if tag == direction_byte forward
    then some forward
    else if tag == direction_byte reverse
    then some reverse
    else if tag == direction_byte port_memo
    then some port_memo
    else none

-- The Geneve option of the forward leg.
abbrev pub geneve_opt_class : ℕ
geneve_opt_class = 0xffff

abbrev pub geneve_opt_type_pod_id : ℕ
geneve_opt_type_pod_id = 0x01

abbrev pub pod_id_opt_len : ℕ
pod_id_opt_len = 24

unfoldable pub encode_pod_id_option : List ℕ → ℕ → List ℕ
unfolding u16_bytes
encode_pod_id_option pod_ip target_port =
    u16_bytes geneve_opt_class
    ++ (geneve_opt_type_pod_id ∷ 5 ∷ (pod_ip ++ (u16_bytes target_port ++ 0 ∷ 0 ∷ [])))

unfoldable pub decode_pod_id_option : List ℕ → Option (List ℕ × ℕ)
unfolding bytes_eq u16_bytes u16_of_bytes
decode_pod_id_option opt =
    if bytes_eq (slice 0 2 opt) (u16_bytes geneve_opt_class)
      && get_or opt 2 0 == geneve_opt_type_pod_id
      && get_or opt 3 0 == 5
    then some (slice 4 16 opt, u16_of_bytes (slice 20 2 opt))
    else none

unfoldable pub geneve_overhead : Bool → ℕ → ℕ
geneve_overhead outer_ipv6 opt_len =
    let outer_ip : ℕ = if outer_ipv6 then 40 else 20 in 14 + outer_ip + 8 + 8 + opt_len

-- `uplink_l2_header_len`: the device types of Linux that carry an Ethernet header, or none.
abbrev pub arphrd_ether : ℕ
arphrd_ether = 1

abbrev pub l3_only_arphrd : List ℕ
l3_only_arphrd = 512 ∷ 519 ∷ 768 ∷ 769 ∷ 776 ∷ 778 ∷ 823 ∷ 0xfffe ∷ []

abbrev pub contains : List ℕ → ℕ → Bool
contains [] x = false
contains (y ∷ ys) x = x == y || contains ys x

unfoldable pub uplink_l2_header_len : ℕ → Option ℕ
uplink_l2_header_len arphrd_type =
    if arphrd_type == arphrd_ether
    then some 14
    else if contains l3_only_arphrd arphrd_type
    then some 0
    else none
