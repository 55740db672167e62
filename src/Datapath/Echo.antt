-- ===== src/Datapath/Echo.antt =====
-- The option of the return leg (ebpf/src/main.rs), from the backend's node to the ingress node.
use beep.Common.{ℕ, ◌<◌, ◌≡◌, some, List, [], ◌∷◌, ◌++◌, arith, length, replicate, length-append}
use beep.Wire.{u16_bytes, u16_of_bytes, bytes_eq}
use beep.Wire.Bytes.{take_whole, drop_past}
use beep.Maps.{RevFlowValue}
use beep.Datapath.{read_bytes}
use beep.Datapath.Egress.{front_echo_option}
use beep.Datapath.Return.{front_echo}

length-front_echo_option :
    (rev : RevFlowValue) → length rev.front_ip ≡ 16 → length (front_echo_option rev) ≡ 24
unfolding front_echo_option
length-front_echo_option rev h =
    omega (arith, h, length-append rev.front_ip (u16_bytes rev.front_port ++ 0 ∷ 0 ∷ []))

-- The front of a reverse row, stamped into the option of the return leg, is read out of it on the
-- other node, whatever length the kernel reports for the option; so the reply gets the address and
-- port back that its client sent to.
-- The address has 16 bytes and the port 16 bits.
pub front_echo-front_echo_option :
    (rev : RevFlowValue) (opt_len : ℕ)
    → length rev.front_ip ≡ 16
    → rev.front_port < 65536
    → front_echo (read_bytes opt_len (front_echo_option rev)) ≡ some (rev.front_ip, rev.front_port)
unfolding front_echo_option bytes_eq u16_bytes u16_of_bytes
front_echo-front_echo_option rev opt_len h k =
    let rest : List ℕ = u16_bytes rev.front_port ++ 0 ∷ 0 ∷ [] in
    let whole =
      take_whole 24 (front_echo_option rev) (replicate 24 0) (length-front_echo_option rev h) in
    rw (whole, take_whole 16 rev.front_ip rest h, drop_past 16 0 rev.front_ip rest h) (ground arith)
