-- ===== src/Wire/PodId.antt =====
-- The Geneve option of the forward leg: encoding and decoding (common/src/lib.rs).
use beep.Common.{
  ℕ, ◌<◌, ◌≡◌, ap, sym, ◌∙◌, some, List, [], ◌∷◌, ◌++◌, arith, length, take, drop, length-append,
}
use beep.Wire.{
  u16_bytes, u16_of_bytes, encode_pod_id_option, decode_pod_id_option, slice, IsBytes,
  pod_id_opt_len,
}
use beep.Wire.Bytes.{
  take_whole, drop_past, split_at, length-drop, length-take, All-take, All-drop, two_bytes,
  take_past,
}

-- The option that is stamped for a 16-byte address and a 16-bit port is decoded to them, and has
-- the length that the datapath reserves.
pub decode-encode_pod_id_option :
    (pod_ip : List ℕ) (target_port : ℕ)
    → length pod_ip ≡ 16
    → target_port < 65536
    → (decode_pod_id_option (encode_pod_id_option pod_ip target_port) ≡ some (pod_ip, target_port))
      × (length (encode_pod_id_option pod_ip target_port) ≡ pod_id_opt_len)
unfolding decode_pod_id_option encode_pod_id_option
decode-encode_pod_id_option pod port h k =
    let rest = u16_bytes port ++ 0 ∷ 0 ∷ [] in
    (
      rw (take_whole 16 pod rest h, drop_past 16 0 pod rest h) (ground arith),
      omega (arith, length-append pod rest),
    )

-- The 18 bytes behind the option's header, for any such bytes.
body_bytes :
    (r : List ℕ)
    → IsBytes 20 r
    → take 18 (take 16 r ++ (u16_bytes (u16_of_bytes (slice 16 2 r)) ++ 0 ∷ 0 ∷ [])) ≡ take 18 r
body_bytes r h =
    let pod = take 16 r in
    let long : length pod ≡ 16 = omega (arith, length-take 16 r) in
    let port : IsBytes 2 (slice 16 2 r) = (
      omega (arith, length-take 2 (drop 16 r), length-drop 16 r),
      All-take (λ x. x < 256) 2 (drop 16 r) (All-drop (λ x. x < 256) 16 r h.1),
    ) in
    rw (two_bytes (slice 16 2 r) port) (
      take_past 16 2 pod (slice 16 2 r ++ 0 ∷ 0 ∷ []) long
      ∙ ap (λ (l : List ℕ). pod ++ l) (take_whole 2 (slice 16 2 r) (0 ∷ 0 ∷ []) port.0)
      ∙ sym (take_past 16 2 pod (drop 16 r) long)
      ∙ ap (λ (l : List ℕ). take 18 l) (split_at 16 r))

-- An accepted option holds, byte for byte, what the encoder writes for its answer, up to the two
-- bytes of padding.
-- The option has 24 bytes.
pub decode_pod_id_option_sound :
    (opt pod_ip : List ℕ) (target_port : ℕ)
    → IsBytes pod_id_opt_len opt
    → decode_pod_id_option opt ≡ some (pod_ip, target_port)
    → take 22 opt ≡ take 22 (encode_pod_id_option pod_ip target_port)
unfolding decode_pod_id_option encode_pod_id_option
decode_pod_id_option_sound [] pod port h e = absurd (omega arith)
decode_pod_id_option_sound (a ∷ []) pod port h e = absurd (omega arith)
decode_pod_id_option_sound (a ∷ b ∷ []) pod port h e = absurd (omega arith)
decode_pod_id_option_sound (a ∷ b ∷ c ∷ []) pod port h e = absurd (omega arith)
decode_pod_id_option_sound (a ∷ b ∷ c ∷ d ∷ r) pod port h e =
    ground (arith, body_bytes r (omega arith, h.1.1.1.1.1))
