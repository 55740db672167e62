-- ===== src/Wire/Address.antt =====
-- IPv4 addresses and their mapped form (common/src/lib.rs).
use beep.Common.{
  ℕ, ◌<◌, ◌≡◌, refl, ap, sym, ◌∙◌, true, false, some, List, [], ◌∷◌, ◌++◌, arith, length, take,
  drop, ◌↔◌, append-nil, replicate,
}
use beep.Wire.{
  u32_bytes, u32_of_bytes, ipv4_mapped_v6, unmap_ipv4, tunnel_remote_addr, wire_ip, wire_port,
  slice, IsBytes,
}
use beep.Wire.Bytes.{eq_of_bytes_eq, drop-drop, split_at, length-drop, All-drop}

pub unmap-ipv4_mapped : (ip : ℕ) → ip < 4294967296 → unmap_ipv4 (ipv4_mapped_v6 ip) ≡ some ip
unfolding unmap_ipv4 ipv4_mapped_v6
unmap-ipv4_mapped ip h = ground arith

pub four_bytes : (r : List ℕ) → IsBytes 4 r → u32_bytes (u32_of_bytes r) ≡ r
unfolding u32_bytes u32_of_bytes
four_bytes [] h = absurd (omega arith)
four_bytes (a ∷ []) h = absurd (omega arith)
four_bytes (a ∷ b ∷ []) h = absurd (omega arith)
four_bytes (a ∷ b ∷ c ∷ []) h = absurd (omega arith)
four_bytes (a ∷ b ∷ c ∷ d ∷ []) h = ground arith
four_bytes (a ∷ b ∷ c ∷ d ∷ e ∷ r) h = absurd (omega arith)

pub take_all : (r : List ℕ) → length r ≡ 4 → take 4 r ≡ r
take_all r h =
    sym (append-nil (take 4 r))
    ∙ ap (λ (l : List ℕ). take 4 r ++ l) (sym (empty r h))
    ∙ split_at 4 r
  where
    empty : (r : List ℕ) → length r ≡ 4 → drop 4 r ≡ []
    empty (a ∷ b ∷ c ∷ d ∷ []) h = refl
    empty (a ∷ b ∷ c ∷ d ∷ e ∷ r) h = absurd (omega arith)
    empty [] h = absurd (omega arith)
    empty (a ∷ []) h = absurd (omega arith)
    empty (a ∷ b ∷ []) h = absurd (omega arith)
    empty (a ∷ b ∷ c ∷ []) h = absurd (omega arith)

-- What an unmapping address is made of.
unmapped_parts :
    (v6 : List ℕ) (ip : ℕ)
    → unmap_ipv4 v6 ≡ some ip
    → (take 10 v6 ≡ replicate 10 0)
      × (slice 10 2 v6 ≡ 0xff ∷ 0xff ∷ [])
      × (u32_of_bytes (slice 12 4 v6) ≡ ip)
unfolding unmap_ipv4
unmapped_parts v6 ip e = ground (
  arith,
  eq_of_bytes_eq (take 10 v6) (replicate 10 0),
  eq_of_bytes_eq (slice 10 2 v6) (0xff ∷ 0xff ∷ []),
)

pub mapped_of_unmapped :
    (v6 : List ℕ) (ip : ℕ) → IsBytes 16 v6 → unmap_ipv4 v6 ≡ some ip → v6 ≡ ipv4_mapped_v6 ip
unfolding ipv4_mapped_v6
mapped_of_unmapped v6 ip h e =
    let parts = unmapped_parts v6 ip e in
    let r = drop 12 v6 in
    let r_bytes : IsBytes 4 r =
      (omega (arith, length-drop 12 v6), All-drop (λ x. x < 256) 12 v6 h.1) in
    let word : u32_bytes ip ≡ r =
      ap u32_bytes (sym parts.2) ∙ rw (take_all r r_bytes.0) (four_bytes r r_bytes) in
    sym (split_at 10 v6)
    ∙ ap (λ (l : List ℕ). take 10 v6 ++ l) (sym (split_at 2 (drop 10 v6)))
    ∙ rw (parts.0, parts.1, ← drop-drop 10 2 v6, word)

-- Unmapping succeeds exactly on the mapped form of an address, and gives that address.
-- The address has 16 bytes, and the IPv4 address is a 32-bit word.
pub unmap_ipv4_exact :
    (v6 : List ℕ) (ip : ℕ)
    → IsBytes 16 v6
    → ip < 4294967296
    → (unmap_ipv4 v6 ≡ some ip) ↔ (v6 ≡ ipv4_mapped_v6 ip)
unmap_ipv4_exact v6 ip h k =
    (mapped_of_unmapped v6 ip h, λ e. ap unmap_ipv4 e ∙ unmap-ipv4_mapped ip k)

-- The tunnel remote is read from the arm that was filled: a v4 remote unmaps to itself, and the
-- four words of a v6 remote are the bytes of the result.
-- The v4 remote is a 32-bit word.
pub tunnel_remote_addr_arms :
    (v4 a b c d : ℕ)
    → v4 < 4294967296
    → (unmap_ipv4 (tunnel_remote_addr false v4 (a ∷ b ∷ c ∷ d ∷ [])) ≡ some v4)
      × (tunnel_remote_addr true v4 (a ∷ b ∷ c ∷ d ∷ [])
          ≡ u32_bytes a ++ (u32_bytes b ++ (u32_bytes c ++ u32_bytes d)))
unfolding tunnel_remote_addr
tunnel_remote_addr_arms v4 a b c d h = (unmap-ipv4_mapped v4 h, refl)

-- Wire order is its own inverse.
-- The address is a 32-bit word and the port a 16-bit one.
pub wire_involutive :
    (ip port : ℕ)
    → ip < 4294967296
    → port < 65536
    → (wire_ip (wire_ip ip) ≡ ip) × (wire_port (wire_port port) ≡ port)
unfolding wire_ip wire_port
wire_involutive ip port h k = (omega arith, omega arith)
