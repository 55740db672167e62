-- ===== src/Wire/Tests.antt =====
-- The byte formats at concrete addresses.
use beep.Common.{ℕ, ◌≡◌, refl, some, List, [], ◌∷◌, ◌++◌, arith, length, take}
use beep.Wire.{
  FiveTuple, forward, reverse, encode_tcp_flow_key, decode_tcp_flow_key, encode_flow_key,
  flow_key_direction, encode_pod_id_option, decode_pod_id_option, pod_id_opt_len,
}
use beep.Wire.FlowKey.{
  IsFiveTuple, decode-encode_tcp_flow_key, flow_key_parts, encode_flow_key_injective,
}
use beep.Wire.PodId.{decode-encode_pod_id_option, decode_pod_id_option_sound}

-- 10.0.0.9 and 2001:db8::1
abbrev v4_ip : List ℕ
v4_ip = 0 ∷ 0 ∷ 0 ∷ 0 ∷ 0 ∷ 0 ∷ 0 ∷ 0 ∷ 0 ∷ 0 ∷ 255 ∷ 255 ∷ 10 ∷ 0 ∷ 0 ∷ 9 ∷ []

abbrev v6_ip : List ℕ
v6_ip = 32 ∷ 1 ∷ 13 ∷ 184 ∷ 0 ∷ 0 ∷ 0 ∷ 0 ∷ 0 ∷ 0 ∷ 0 ∷ 0 ∷ 0 ∷ 0 ∷ 0 ∷ 1 ∷ []

abbrev tuple-IsFiveTuple : IsFiveTuple v4_ip 40000 v6_ip 443
tuple-IsFiveTuple = record {
  client_ip_length = refl;
  client_port_lt = omega arith;
  other_ip_length = refl;
  other_port_lt = omega arith;
}

decode-encode_tcp_flow_key_example :
    decode_tcp_flow_key (encode_tcp_flow_key v4_ip 40000 v6_ip 443 6)
    ≡ (v4_ip, 40000, v6_ip, 443, 6)
decode-encode_tcp_flow_key_example =
    decode-encode_tcp_flow_key v4_ip 40000 v6_ip 443 6 tuple-IsFiveTuple

abbrev key : List ℕ
key = v4_ip ++ (v6_ip ++ (64 ∷ 156 ∷ 187 ∷ 1 ∷ 6 ∷ []))

flow_key_parts_example :
    (decode_tcp_flow_key (take 37 (encode_flow_key v4_ip 40000 v6_ip 443 6 reverse))
      ≡ (v4_ip, 40000, v6_ip, 443, 6))
    × (flow_key_direction (encode_flow_key v4_ip 40000 v6_ip 443 6 reverse) ≡ some reverse)
flow_key_parts_example = flow_key_parts v4_ip 40000 v6_ip 443 6 reverse tuple-IsFiveTuple

encode_flow_key_injective_example :
    (◌≡◌ {A = FiveTuple} (v4_ip, 40000, v6_ip, 443, 6) (v4_ip, 40000, v6_ip, 443, 6))
    × (forward ≡ forward)
encode_flow_key_injective_example =
    encode_flow_key_injective v4_ip 40000 v6_ip 443 6 forward v4_ip 40000 v6_ip 443 6 forward
      tuple-IsFiveTuple tuple-IsFiveTuple refl

decode-encode_pod_id_option_example :
    (decode_pod_id_option (encode_pod_id_option v6_ip 8080) ≡ some (v6_ip, 8080))
    × (length (encode_pod_id_option v6_ip 8080) ≡ pod_id_opt_len)
decode-encode_pod_id_option_example = decode-encode_pod_id_option v6_ip 8080 refl (omega arith)

-- Padding that is not 0.
abbrev option : List ℕ
option = 255 ∷ 255 ∷ 1 ∷ 5 ∷ (v6_ip ++ (144 ∷ 31 ∷ 7 ∷ 9 ∷ []))

option_decoded : decode_pod_id_option option ≡ some (v6_ip, 8080)
unfolding decode_pod_id_option
option_decoded = refl

decode_pod_id_option_sound_example : take 22 option ≡ take 22 (encode_pod_id_option v6_ip 8080)
decode_pod_id_option_sound_example =
    decode_pod_id_option_sound option v6_ip 8080 (refl, omega arith) option_decoded
