-- ===== src/Wire/FlowKey.antt =====
-- Flow keys: encoding, decoding and the direction tag (common/src/lib.rs).
use beep.Common.{
  some, ℕ, ◌+◌, ◌<◌, ◌≡◌, ap, sym, ◌∙◌, List, [], ◌∷◌, ◌++◌, arith, length, take, drop, get_or,
  length-append,
}
use beep.Wire.{
  flow_key_direction, u16_bytes, u16_of_bytes, encode_tcp_flow_key, decode_tcp_flow_key,
  encode_flow_key, FiveTuple, FlowDirection, direction_byte, slice, IsBytes,
}
use beep.Wire.Bytes.{
  take_whole, drop_past, get_or_past, split_at, drop-drop, get_or-drop, length-drop, All-drop,
}

-- What the type of a flow's parts says of them.
pub record IsFiveTuple (client_ip : List ℕ) (client_port : ℕ) (other_ip : List ℕ) (other_port : ℕ)
    : Type 0 where
  pub client_ip_length : length client_ip ≡ 16
  pub client_port_lt : client_port < 65536
  pub other_ip_length : length other_ip ≡ 16
  pub other_port_lt : other_port < 65536

-- Two addresses and what follows them, read back.
module _ (c o r : List ℕ) (hc : length c ≡ 16) (ho : length o ≡ 16) where
  first_address : take 16 (c ++ (o ++ r)) ≡ c
  first_address = take_whole 16 c (o ++ r) hc

  second_address : take 16 (drop 16 (c ++ (o ++ r))) ≡ o
  second_address = rw (drop_past 16 0 c (o ++ r) hc) (take_whole 16 o r ho)

  behind : (k : ℕ) → drop (16 + (16 + k)) (c ++ (o ++ r)) ≡ drop k r
  behind k = drop_past 16 (16 + k) c (o ++ r) hc ∙ drop_past 16 k o r ho

  behind_byte : (k : ℕ) → get_or (c ++ (o ++ r)) (16 + (16 + k)) 0 ≡ get_or r k 0
  behind_byte k = get_or_past 16 (16 + k) c (o ++ r) 0 hc ∙ get_or_past 16 k o r 0 ho

-- A key decodes to the parts that it was made of.
-- The addresses have 16 bytes and the ports 16 bits.
pub decode-encode_tcp_flow_key :
    (client_ip : List ℕ) (client_port : ℕ) (other_ip : List ℕ) (other_port proto : ℕ)
    → IsFiveTuple client_ip client_port other_ip other_port
    → decode_tcp_flow_key (encode_tcp_flow_key client_ip client_port other_ip other_port proto)
      ≡ (client_ip, client_port, other_ip, other_port, proto)
unfolding decode_tcp_flow_key encode_tcp_flow_key
decode-encode_tcp_flow_key c cp o op proto h =
    let r = u16_bytes cp ++ (u16_bytes op ++ proto ∷ []) in
    rw
      (
        first_address c o r h.client_ip_length h.other_ip_length,
        second_address c o r h.client_ip_length h.other_ip_length,
        behind c o r h.client_ip_length h.other_ip_length 0,
        behind c o r h.client_ip_length h.other_ip_length 2,
        behind_byte c o r h.client_ip_length h.other_ip_length 4,
      )
      (ground arith)

tail_bytes :
    (r : List ℕ)
    → IsBytes 5 r
    → u16_bytes (u16_of_bytes (take 2 r))
        ++ (u16_bytes (u16_of_bytes (slice 2 2 r)) ++ get_or r 4 0 ∷ [])
      ≡ r
unfolding u16_bytes u16_of_bytes
tail_bytes [] h = absurd (omega arith)
tail_bytes (a ∷ []) h = absurd (omega arith)
tail_bytes (a ∷ b ∷ []) h = absurd (omega arith)
tail_bytes (a ∷ b ∷ c ∷ []) h = absurd (omega arith)
tail_bytes (a ∷ b ∷ c ∷ d ∷ []) h = absurd (omega arith)
tail_bytes (a ∷ b ∷ c ∷ d ∷ e ∷ []) h = ground arith
tail_bytes (a ∷ b ∷ c ∷ d ∷ e ∷ f ∷ r) h = absurd (omega arith)

abbrev pub encode_tuple : FiveTuple → List ℕ
encode_tuple (c, cp, o, op, proto) = encode_tcp_flow_key c cp o op proto

-- Every 37 bytes are the key of what they decode to, so that no two tuples share a key and no key
-- is left without a tuple.
pub encode-decode_tcp_flow_key :
    (key : List ℕ) → IsBytes 37 key → encode_tuple (decode_tcp_flow_key key) ≡ key
unfolding decode_tcp_flow_key encode_tcp_flow_key
encode-decode_tcp_flow_key key h =
    let r = drop 32 key in
    let rest : drop 16 (drop 16 key) ≡ r = sym (drop-drop 16 16 key) in
    let tail =
      tail_bytes r (omega (arith, length-drop 32 key), All-drop (λ x. x < 256) 32 key h.1) in
    rw (
      drop-drop 32 2 key,
      get_or-drop 32 4 key 0,
      tail,
      ← rest,
      split_at 16 (drop 16 key),
      split_at 16 key,
    )

pub length-encode_tcp_flow_key :
    (c : List ℕ) (cp : ℕ) (o : List ℕ) (op proto : ℕ)
    → length c ≡ 16
    → length o ≡ 16
    → length (encode_tcp_flow_key c cp o op proto) ≡ 37
unfolding encode_tcp_flow_key
length-encode_tcp_flow_key c cp o op proto hc ho = omega (
  arith,
  length-append c (o ++ (u16_bytes cp ++ (u16_bytes op ++ proto ∷ []))),
  length-append o (u16_bytes cp ++ (u16_bytes op ++ proto ∷ [])),
)

-- The tag is read back from any key with two whole addresses.
pub flow_key_direction-encode_flow_key :
    (c : List ℕ) (cp : ℕ) (o : List ℕ) (op proto : ℕ) (d : FlowDirection)
    → length c ≡ 16
    → length o ≡ 16
    → flow_key_direction (encode_flow_key c cp o op proto d) ≡ some d
unfolding flow_key_direction encode_flow_key
flow_key_direction-encode_flow_key c cp o op proto d hc ho =
    let tcp = encode_tcp_flow_key c cp o op proto in
    let tag =
      get_or_past 37 0 tcp (direction_byte d ∷ []) 0
        (length-encode_tcp_flow_key c cp o op proto hc ho) in
    ground (arith, tag)

-- The tagged key gives back its tuple, from its first 37 bytes, and its role, from the last.
-- The addresses have 16 bytes and the ports 16 bits.
pub flow_key_parts :
    (client_ip : List ℕ) (client_port : ℕ) (other_ip : List ℕ) (other_port proto : ℕ)
    (direction : FlowDirection)
    → IsFiveTuple client_ip client_port other_ip other_port
    → let key = encode_flow_key client_ip client_port other_ip other_port proto direction in
      (decode_tcp_flow_key (take 37 key) ≡ (client_ip, client_port, other_ip, other_port, proto))
      × (flow_key_direction key ≡ some direction)
unfolding encode_flow_key flow_key_direction
flow_key_parts c cp o op proto d h =
    let tcp = encode_tcp_flow_key c cp o op proto in
    let long = length-encode_tcp_flow_key c cp o op proto h.client_ip_length h.other_ip_length in
    (
      rw (take_whole 37 tcp (direction_byte d ∷ []) long)
          (decode-encode_tcp_flow_key c cp o op proto h),
      tag_of (get_or_past 37 0 tcp (direction_byte d ∷ []) 0 long),
    )
  where
    tag_of :
        get_or (encode_tcp_flow_key c cp o op proto ++ direction_byte d ∷ []) 37 0
          ≡ direction_byte d
        → flow_key_direction (encode_flow_key c cp o op proto d) ≡ some d
    tag_of e = ground arith

-- Two tagged keys are equal only if the flows and the roles are: a forward row, a reverse row and a
-- port memo never share a slot of the flow table.
-- The addresses have 16 bytes and the ports 16 bits.
pub encode_flow_key_injective :
    (c : List ℕ) (cp : ℕ) (o : List ℕ) (op proto : ℕ) (d : FlowDirection) (c' : List ℕ) (cp' : ℕ)
    (o' : List ℕ) (op' proto' : ℕ) (d' : FlowDirection)
    → IsFiveTuple c cp o op
    → IsFiveTuple c' cp' o' op'
    → encode_flow_key c cp o op proto d ≡ encode_flow_key c' cp' o' op' proto' d'
    → (◌≡◌ {A = FiveTuple} (c, cp, o, op, proto) (c', cp', o', op', proto')) × (d ≡ d')
encode_flow_key_injective c cp o op proto d c' cp' o' op' proto' d' h h' e =
    let p = flow_key_parts c cp o op proto d h in
    let p' = flow_key_parts c' cp' o' op' proto' d' h' in
    (
      sym p.0 ∙ ap (λ (k : List ℕ). decode_tcp_flow_key (take 37 k)) e ∙ p'.0,
      cc (p.1, p'.1, ap flow_key_direction e),
    )
