-- ===== src/Reconcile/Address.antt =====
-- Addresses and ranges of addresses in the controller (controller/src/reconcile.rs, src/lib.rs). An IPv4
-- address is a number, an IPv6 address its octets.
use beep.Common.{
  ℕ, ◌+◌, ◌-◌, ◌*◌, ◌%◌, ◌^◌, Bool, true, false, not, ◌||◌, Option, none, some, List, [], ◌∷◌, ◌==◌,
  ltb, if◌then◌else◌, bit_and,
}
use beep.Wire.{ipv4_mapped_v6, wire_ip, bytes_eq}

pub data IpAddr : Type 0 where
  v4 : ℕ → IpAddr
  v6 : List ℕ → IpAddr

abbrev pub is_ipv4 : IpAddr → Bool
is_ipv4 (v4 ip) = true
is_ipv4 (v6 octets) = false

abbrev pub bool_eq : Bool → Bool → Bool
bool_eq true b = b
bool_eq false b = not b

unfoldable pub ip_eq : IpAddr → IpAddr → Bool
unfolding bytes_eq
ip_eq (v4 a) (v4 b) = a == b
ip_eq (v4 a) (v6 b) = false
ip_eq (v6 a) (v4 b) = false
ip_eq (v6 a) (v6 b) = bytes_eq a b

abbrev pub contains_ip : List IpAddr → IpAddr → Bool
contains_ip [] ip = false
contains_ip (a ∷ ips) ip = ip_eq a ip || contains_ip ips ip

-- The order of addresses: IPv4 first, then by value.
abbrev pub bytes_before : List ℕ → List ℕ → Bool
bytes_before [] [] = false
bytes_before [] (y ∷ ys) = true
bytes_before (x ∷ xs) [] = false
bytes_before (x ∷ xs) (y ∷ ys) = if x == y then bytes_before xs ys else ltb x y

abbrev pub ip_before : IpAddr → IpAddr → Bool
ip_before (v4 a) (v4 b) = ltb a b
ip_before (v4 a) (v6 b) = true
ip_before (v6 a) (v4 b) = false
ip_before (v6 a) (v6 b) = bytes_before a b

-- `wire_ip_v6` and `tunnel_remote_v6` (src/lib.rs)
unfoldable pub wire_ip_v6 : IpAddr → List ℕ
unfolding ipv4_mapped_v6 wire_ip
wire_ip_v6 (v4 ip) = ipv4_mapped_v6 (wire_ip ip)
wire_ip_v6 (v6 octets) = octets

unfoldable pub tunnel_remote_v6 : IpAddr → List ℕ
unfolding ipv4_mapped_v6
tunnel_remote_v6 (v4 ip) = ipv4_mapped_v6 ip
tunnel_remote_v6 (v6 octets) = octets

-- A range of addresses of `width` bits.
pub record Cidr : Type 0 where
  pub network : ℕ
  pub prefix_len : ℕ

abbrev pub cidr_mask : ℕ → ℕ → ℕ
cidr_mask width prefix_len =
    if prefix_len == 0 then 0 else (2 ^ width - 1) * 2 ^ (width - prefix_len) % 2 ^ width

abbrev pub new_cidr : ℕ → ℕ → ℕ → Cidr
new_cidr width network prefix_len = record {
  network = bit_and network (cidr_mask width prefix_len);
  prefix_len = prefix_len;
}

abbrev pub cidr_contains : ℕ → Cidr → ℕ → Bool
cidr_contains width cidr ip =
    let mask = cidr_mask width cidr.prefix_len in bit_and ip mask == bit_and cidr.network mask

pub record PodCidrs : Type 0 where
  pub cidr4 : Option Cidr
  pub cidr6 : Option Cidr

-- `u128::from` of the octets, before them the number so far.
abbrev pub of_octets : ℕ → List ℕ → ℕ
of_octets n [] = n
of_octets n (x ∷ xs) = of_octets (n * 256 + x) xs

abbrev pub some_contains : ℕ → Option Cidr → ℕ → Bool
some_contains width none ip = false
some_contains width (some cidr) ip = cidr_contains width cidr ip

unfoldable pub pod_cidrs_contain : PodCidrs → IpAddr → Bool
pod_cidrs_contain cidrs (v4 ip) = some_contains 32 cidrs.cidr4 ip
pod_cidrs_contain cidrs (v6 octets) = some_contains 128 cidrs.cidr6 (of_octets 0 octets)
