-- ===== src/Steer/Hash.antt =====
-- The flow hash (`flow_hash` and `front_flow_hash` of common/src/lib.rs), word by word.
use beep.Common.{
  Bool-cases, inl, inr, ltb, ℕ, ◌*◌, ◌/◌, ◌%◌, ◌^◌, ◌<◌, ◌≡◌, refl, ap, sym, ◌∙◌, true, List, [],
  ◌∷◌, arith, bit_xor, ◌↔◌, ◌⊎◌, All, ◌++◌,
}
use beep.Common.Bits.{
  bit_xor-lt, bit_xor-injective, bit_xor-injective_left, xorshift_injective, bit_at, bit_at-bit_or,
  bit_at-shl, bit_or-lt, bit_at-beyond, eq_of_bits,
}
use beep.Maps.{LbFrontKey, FrontMeta, u32_mod, u16_mod, front_flag_client_ip_affinity}
use beep.Steer.{
  mix32, mix_words, finish_hash, flow_hash, front_flow_hash, port_word, has_bits, xorshift,
  wrapping_mul, le_words,
}

xorshift-lt : (k h : ℕ) → h < 2 ^ 32 → xorshift k h < 2 ^ 32
xorshift-lt k h p = bit_xor-lt 32 h (h / 2 ^ k) p (omega arith)

-- Multiplication by an odd constant is undone by multiplication by its inverse.
mul_mix : (x : ℕ) → x < u32_mod → wrapping_mul (wrapping_mul x 0x9e37_79b1) 0x0e8b_2f51 ≡ x
mul_mix x h = omega arith

mul_first : (x : ℕ) → x < u32_mod → wrapping_mul (wrapping_mul x 0x85eb_ca6b) 0xa5cb_9243 ≡ x
mul_first x h = omega arith

mul_second : (x : ℕ) → x < u32_mod → wrapping_mul (wrapping_mul x 0xc2b2_ae35) 0x7ed1_b41d ≡ x
mul_second x h = omega arith

mix32-lt : (h w : ℕ) → mix32 h w < 2 ^ 32
unfolding mix32
mix32-lt h w = xorshift-lt 15 _ (omega arith)

abbrev IsU32 : ℕ → Type 0
IsU32 x = x < 2 ^ 32

mul_mix_injective :
    (x y : ℕ) → IsU32 x → IsU32 y → wrapping_mul x 0x9e37_79b1 ≡ wrapping_mul y 0x9e37_79b1 → x ≡ y
mul_mix_injective x y hx hy e =
    sym (mul_mix x hx) ∙ ap (λ (t : ℕ). wrapping_mul t 0x0e8b_2f51) e ∙ mul_mix y hy

-- What `mix32` does after its exclusive or.
scramble_injective :
    (x y : ℕ)
    → IsU32 x
    → IsU32 y
    → xorshift 15 (wrapping_mul x 0x9e37_79b1) ≡ xorshift 15 (wrapping_mul y 0x9e37_79b1)
    → x ≡ y
scramble_injective x y hx hy e = mul_mix_injective x y hx hy (
    xorshift_injective 32 14 (wrapping_mul x 0x9e37_79b1) (wrapping_mul y 0x9e37_79b1) (omega arith)
      (omega arith) e)

module _ (h x y : ℕ) (hh : IsU32 h) (hx : IsU32 x) (hy : IsU32 y) where
  mix32_injective_word : mix32 h x ≡ mix32 h y → x ≡ y
  unfolding mix32
  mix32_injective_word e = bit_xor-injective 32 h x y hx hy (
      scramble_injective (bit_xor h x) (bit_xor h y) (bit_xor-lt 32 h x hh hx)
        (bit_xor-lt 32 h y hh hy) e)

  mix32_injective_state : mix32 x h ≡ mix32 y h → x ≡ y
  unfolding mix32
  mix32_injective_state e = bit_xor-injective_left 32 h x y hx hy (
      scramble_injective (bit_xor x h) (bit_xor y h) (bit_xor-lt 32 x h hx hh)
        (bit_xor-lt 32 y h hy hh) e)

-- Mixing more words keeps states apart.
mix_words_injective_state :
    (x y : ℕ) (ws : List ℕ)
    → IsU32 x
    → IsU32 y
    → All IsU32 ws
    → mix_words x ws ≡ mix_words y ws
    → x ≡ y
unfolding mix_words
mix_words_injective_state x y [] hx hy hw e = e
mix_words_injective_state x y (w ∷ ws) hx hy hw e =
    mix32_injective_state w x y hw.0 hx hy
      (mix_words_injective_state (mix32 x w) (mix32 y w) ws (mix32-lt x w) (mix32-lt y w) hw.1 e)

-- Two lists of words that differ in one place are kept apart.
mix_words_injective_word :
    (h : ℕ) (before : List ℕ) (x y : ℕ) (after : List ℕ)
    → IsU32 h
    → IsU32 x
    → IsU32 y
    → All IsU32 after
    → mix_words h (before ++ x ∷ after) ≡ mix_words h (before ++ y ∷ after)
    → x ≡ y
unfolding mix_words
mix_words_injective_word h [] x y after hh hx hy ha e =
    mix32_injective_word h x y hh hx hy
      (mix_words_injective_state (mix32 h x) (mix32 h y) after (mix32-lt h x) (mix32-lt h y) ha e)
mix_words_injective_word h (b ∷ before) x y after hh hx hy ha e =
    mix_words_injective_word (mix32 h b) before x y after (mix32-lt h b) hx hy ha e

mix_words-lt : (h : ℕ) (ws : List ℕ) → IsU32 h → IsU32 (mix_words h ws)
unfolding mix_words
mix_words-lt h [] hh = hh
mix_words-lt h (w ∷ ws) hh = mix_words-lt (mix32 h w) ws (mix32-lt h w)

finish_hash_injective : (x y : ℕ) → IsU32 x → IsU32 y → finish_hash x ≡ finish_hash y → x ≡ y
unfolding finish_hash
finish_hash_injective x y hx hy e =
    let x1 = xorshift 16 x in
    let y1 = xorshift 16 y in
    let x2 = wrapping_mul x1 0x85eb_ca6b in
    let y2 = wrapping_mul y1 0x85eb_ca6b in
    let x3 = xorshift 13 x2 in
    let y3 = xorshift 13 y2 in
    let x4 = wrapping_mul x3 0xc2b2_ae35 in
    let y4 = wrapping_mul y3 0xc2b2_ae35 in
    let hx1 = xorshift-lt 16 x hx in
    let hy1 = xorshift-lt 16 y hy in
    let hx2 : IsU32 x2 = omega arith in
    let hy2 : IsU32 y2 = omega arith in
    let hx3 = xorshift-lt 13 x2 hx2 in
    let hy3 = xorshift-lt 13 y2 hy2 in
    let e4 : x4 ≡ y4 = xorshift_injective 32 15 x4 y4 (omega arith) (omega arith) e in
    let e3 : x3 ≡ y3 =
      sym (mul_second x3 hx3) ∙ ap (λ (t : ℕ). wrapping_mul t 0x7ed1_b41d) e4 ∙ mul_second y3 hy3 in
    let e2 : x2 ≡ y2 = xorshift_injective 32 12 x2 y2 hx2 hy2 e3 in
    let e1 : x1 ≡ y1 =
      sym (mul_first x1 hx1) ∙ ap (λ (t : ℕ). wrapping_mul t 0xa5cb_9243) e2 ∙ mul_first y1 hy1 in
    xorshift_injective 32 15 x y hx hy e1

finish_hash-lt : (h : ℕ) → IsU32 (finish_hash h)
unfolding finish_hash
finish_hash-lt h = xorshift-lt 16 _ (omega arith)

-- The hash is a `u32`.
pub flow_hash-lt :
    (seed : ℕ) (client_ip : List ℕ) (client_port : ℕ) (front : LbFrontKey)
    → flow_hash seed client_ip client_port front < 2 ^ 32
unfolding flow_hash
flow_hash-lt seed c cp front = finish_hash-lt _

port_word_injective : (p q f : ℕ) → p < 2 ^ 16 → q < 2 ^ 16 → port_word p f ≡ port_word q f → p ≡ q
port_word_injective p q f hp hq e = eq_of_bits 16 p q hp hq digit
  where
    digit : (i : ℕ) → bit_at i p ≡ bit_at i q
    digit i = elim (Bool-cases (ltb i 16)) [
      | inl low ↦ omega (
        arith,
        ap (bit_at i) e,
        bit_at-bit_or i p (f * 2 ^ 16),
        bit_at-bit_or i q (f * 2 ^ 16),
        bit_at-shl 16 i f (ground arith),
      )
      | inr high ↦
          bit_at-beyond 16 i p hp (ground arith) ∙ sym (bit_at-beyond 16 i q hq (ground arith))
    ]

port_word-lt : (p f : ℕ) → p < 2 ^ 16 → f < 2 ^ 16 → IsU32 (port_word p f)
port_word-lt p f hp hf = bit_or-lt 32 p (f * 2 ^ 16) (omega arith) (omega arith)

-- Two flows of one client address to one front have the same hash only if they have the same client
-- port.
pub flow_hash_port :
    (seed : ℕ) (client_ip : List ℕ) (p q : ℕ) (front : LbFrontKey)
    → p < u16_mod
    → q < u16_mod
    → front.front_port < u16_mod
    → front.proto < 256
    → flow_hash seed client_ip p front ≡ flow_hash seed client_ip q front
    → p ≡ q
unfolding flow_hash
flow_hash_port seed c p q front hp hq hf ht e =
    let before =
      (seed % u32_mod)
      ∷ (seed / 2 ^ 32 % u32_mod)
      ∷ (le_words c).0
      ∷ (le_words front.front_ip).0
      ∷ (le_words c).1
      ∷ (le_words front.front_ip).1
      ∷ (le_words c).2
      ∷ (le_words front.front_ip).2
      ∷ (le_words c).3
      ∷ (le_words front.front_ip).3
      ∷ [] in
    let x = port_word p front.front_port in
    let y = port_word q front.front_port in
    let after = front.proto ∷ [] in
    let start : ℕ = 0x811c_9dc5 in
    port_word_injective p q front.front_port hp hq (
      mix_words_injective_word start before x y after (omega arith) (port_word-lt p _ hp hf)
        (port_word-lt q _ hq hf) (omega arith)
        (finish_hash_injective _ _ (mix_words-lt start (before ++ x ∷ after) (omega arith))
          (mix_words-lt start (before ++ y ∷ after) (omega arith)) e))

-- The client port counts exactly when the front does not ask for client affinity: with the flag
-- all connections of a client share a hash, and without it no two ports do.
-- The ports are 16-bit words and the protocol an 8-bit one.
pub front_flow_hash_affinity :
    (seed : ℕ) (client_ip : List ℕ) (p q : ℕ) (front : LbFrontKey) (meta : FrontMeta)
    → p < u16_mod
    → q < u16_mod
    → front.front_port < u16_mod
    → front.proto < 256
    → (front_flow_hash seed client_ip p front meta ≡ front_flow_hash seed client_ip q front meta)
      ↔ ((has_bits meta.flags front_flag_client_ip_affinity ≡ true) ⊎ (p ≡ q))
unfolding front_flow_hash
front_flow_hash_affinity seed c p q front meta hp hq hf ht =
    elim (Bool-cases (has_bits meta.flags front_flag_client_ip_affinity)) [
      | inl set ↦ rw set (λ e. inl refl, λ s. refl)
      | inr clear ↦ rw clear (
        λ e. inr (flow_hash_port seed c p q front hp hq hf ht e),
        λ s. elim s [ inl b ↦ cc | inr pq ↦ ap (λ (t : ℕ). flow_hash seed c t front) pq ],
      )
    ]
