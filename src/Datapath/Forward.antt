-- ===== src/Datapath/Forward.antt =====
-- The pins under the forward leg of the tunnel hook (ebpf/src/main.rs).
pub mod Hooks
use beep.Common.{
  ℕ, ◌+◌, ◌%◌, ◌≤◌, ◌≡◌, ◌≢◌, ◌⊎◌, refl, sym, ◌∙◌, ap, Bool, true, false, ◌&&◌, Option, none, some,
  List, [], ◌∷◌, ◌++◌, ◌==◌, leb, if◌then◌else◌, is_yes, Bool-cases, inl, inr, arith, length, take,
  drop, append_assoc, length-append, length-replicate, replicate, min, ◌-◌,
}
use beep.Common.Assoc.{is_yes_iff}
use beep.Table.Lookup.{has_key}
use beep.Datapath.Evict.{
  will_evict, will_evict-now, EvictsLater, insert_flow-EvictsLater, flow_at-insert_flow,
}
use beep.Flow.{FlowStep, keep, write, skip}
use beep.Maps.{RevFlowValue, Bytes-discrete}
use beep.Wire.{
  FlowDirection, forward, reverse, port_memo, flow_key_direction, encode_flow_key,
  encode_tcp_flow_key, u16_bytes, ipv4_mapped_v6, decode_pod_id_option, slice,
}
use beep.Wire.Bytes.{take_past, drop_past, take_whole, length-take, length-drop}
use beep.Wire.FlowKey.{flow_key_direction-encode_flow_key}
use beep.Remap.{BackendPortDecision, no_remap, remap, exhausted}
use beep.Table.{FlowValue, Table, flow_at}
use beep.Admission.{BackendPortResolution, memoized, probe_port}
use beep.Reverse.{holds}
use beep.Datapath.{
  Node, Skb, World, Verdict, ok, shot, TunnelKey, OptionRead, negative, read_bytes, Kernel, Hook,
  ◌>>=◌, ◌>>◌, pure, return, or_none, or_return, skb_of, world_of,
}
use beep.Datapath.Maps.{
  evicted_now, insert_flow, flow_table_insert, gc_parity, flow_table_get_reverse,
  flow_table_get_port_memo,
}
use beep.Datapath.Packet.{load, loaded, is_served, write_at}
use beep.Datapath.Tunnel.{tunnel_remote, buffer}
use beep.Datapath.Frame.{
  Frame, Keeps, Keeps-pure, Keeps-return, Keeps-or_none, Keeps-node_of, Keeps-change_node,
  Keeps-accepted, Keeps-if, Keeps-bind, Keeps-then,
}
use beep.Datapath.Carry.{
  Keeps-loaded, Keeps-tcp_flags, Keeps-rewrite_l4_port, Keeps-rewrite_ip_port,
  Keeps-rewrite_ipv6_port, Keeps-to_host, Keeps-known_peer, Keeps-local_pod,
}
use beep.Datapath.Backend.{
  pod_id_option, try_geneve_decap_forward_v4, try_geneve_decap_forward_v6, try_geneve_decap_forward,
}
use beep.Datapath.Record.{
  PodFlow, pod_key, candidate_key, store_reverse, commit_step, remapped, backend_port,
  backend_port_of, commit_reverse, record_flow,
}

-- A forward row is as it was, or the kernel has evicted it, and the pending table is the same.
abbrev pub SamePins : Node → Node → Type 0
SamePins n n' =
    ((key : List ℕ)
      → flow_key_direction key ≡ some forward
      → (flow_at n'.table key ≡ flow_at n.table key)
        ⊎ ((flow_at n'.table key ≡ none) × (will_evict n.evictions key ≡ true)))
    × (n'.pending ≡ n.pending)
    × EvictsLater n n'

pub SamePins-joins : (n n' n'' : Node) → SamePins n n' → SamePins n' n'' → SamePins n n''
SamePins-joins n n' n'' r r' =
    (λ k d. through k (r.0 k d) (r'.0 k d), r'.1 ∙ r.1, λ k h. r.2 k (r'.2 k h))
  where
    through :
        (k : List ℕ)
        → (flow_at n'.table k ≡ flow_at n.table k)
          ⊎ ((flow_at n'.table k ≡ none) × (will_evict n.evictions k ≡ true))
        → (flow_at n''.table k ≡ flow_at n'.table k)
          ⊎ ((flow_at n''.table k ≡ none) × (will_evict n'.evictions k ≡ true))
        → (flow_at n''.table k ≡ flow_at n.table k)
          ⊎ ((flow_at n''.table k ≡ none) × (will_evict n.evictions k ≡ true))
    through k (inl a) (inl b) = inl (b ∙ a)
    through k (inr (gone, e)) (inl b) = inr (b ∙ gone, e)
    through k a (inr (gone, e)) = inr (gone, r.2 k e)

abbrev pub pins : Frame
pins = record {
  rel = SamePins;
  at = λ n. Unit {0};
  stays = λ n. (λ k d. inl refl, refl, λ k h. h);
  joins = SamePins-joins;
  stable = λ n n' r h. tt;
}

-- What was read has a property that the next step needs.
module _ (F : Frame) {A B : Type 0} (k : A → Hook B) where
  pub Keeps-some :
      (o : Option A) → ((a : A) → o ≡ some a → Keeps F (k a)) → Keeps F (or_none o >>= k)
  unfolding ◌>>=◌ or_none
  Keeps-some none h = record { kept = λ w p. F.stays w.node }
  Keeps-some (some a) h = record { kept = (h a refl).kept }

  pub Keeps-some_or :
      (v : Verdict) (o : Option A)
      → ((a : A) → o ≡ some a → Keeps F (k a))
      → Keeps F (or_return v o >>= k)
  unfolding ◌>>=◌ or_return
  Keeps-some_or v none h = record { kept = λ w p. F.stays w.node }
  Keeps-some_or v (some a) h = record { kept = (h a refl).kept }

  pub Keeps-loaded_with :
      (f : Skb → Option A)
      → ((s : Skb) (a : A) → f s ≡ some a → Keeps F (k a))
      → Keeps F (loaded f >>= k)
  unfolding ◌>>=◌ loaded skb_of
  Keeps-loaded_with f h = record { kept = λ w p. at_world w (Keeps-some (f w.skb) (h w.skb)) p }
    where
      at_world :
          (w : World)
          → Keeps F (or_none (f w.skb) >>= k)
          → F.at w.node
          → F.rel w.node (world_of ((or_none (f w.skb) >>= k) w)).node
      at_world w h p = h.kept w p

pub length-load : (n off : ℕ) (s : Skb) (b : List ℕ) → load n off s ≡ some b → length b ≡ n
unfolding load
length-load n off s b e = elim (Bool-cases (leb (off + n) (length s.data_bytes))) [
  | inl c ↦
      let found : load n off s ≡ some (slice off n s.data_bytes) = rw c refl in
      let got : some (slice off n s.data_bytes) ≡ some b = sym found ∙ e in
      let fits : off + n ≤ length s.data_bytes = ground (arith, c) in
      ground (arith, got, length-take n (drop off s.data_bytes), length-drop off s.data_bytes, fits)
  | inr c ↦ absurd (ground (arith, c, e))
]

pub length-ipv4_mapped : (ip : ℕ) → length (ipv4_mapped_v6 ip) ≡ 16
unfolding ipv4_mapped_v6
length-ipv4_mapped ip = refl

-- A flow between whole addresses.
pub record IsPodFlow (flow : PodFlow) : Type 0 where
  pub client_ip_length : length flow.client_ip ≡ 16
  pub pod_ip_length : length flow.pod_ip ≡ 16

pub pod_key-direction :
    (flow : PodFlow) (port : ℕ) (d : FlowDirection)
    → IsPodFlow flow
    → flow_key_direction (pod_key flow port d) ≡ some d
pod_key-direction flow port d h =
    flow_key_direction-encode_flow_key flow.client_ip port flow.pod_ip flow.target_port flow.proto d
      h.client_ip_length h.pod_ip_length

-- Writing a port into a key's place for it.
patched :
    (c o a b tail : List ℕ)
    → length c ≡ 16
    → length o ≡ 16
    → length a ≡ 2
    → length b ≡ 2
    → write_at 32 b (c ++ (o ++ (a ++ tail))) ≡ c ++ (o ++ (b ++ tail))
patched c o a b tail hc ho ha hb =
    let kept : take 32 (c ++ (o ++ (a ++ tail))) ≡ c ++ o =
      take_past 16 16 c (o ++ (a ++ tail)) hc
      ∙ ap (λ (l : List ℕ). c ++ l) (take_whole 16 o (a ++ tail) ho) in
    let size : 32 + length b ≡ 34 = omega (arith, hb) in
    let left : drop 34 (c ++ (o ++ (a ++ tail))) ≡ tail =
      drop_past 16 18 c (o ++ (a ++ tail)) hc
      ∙ drop_past 16 2 o (a ++ tail) ho
      ∙ drop_past 2 0 a tail ha in
    rw (kept, size, left) (append_assoc c o (b ++ tail))

-- The tag byte moved to the end of the inner parts.
tag_last : (c o a rest d : List ℕ) → (c ++ (o ++ (a ++ rest))) ++ d ≡ c ++ (o ++ (a ++ (rest ++ d)))
tag_last c o a rest d =
    append_assoc c (o ++ (a ++ rest)) d
    ∙ ap (λ (l : List ℕ). c ++ l)
        (append_assoc o (a ++ rest) d ∙ ap (λ (l : List ℕ). o ++ l) (append_assoc a rest d))

-- The patched candidate key is the flow's reverse key under that port.
pub candidate_key_lem :
    (flow : PodFlow) (port : ℕ)
    → IsPodFlow flow
    → candidate_key flow port ≡ pod_key flow port reverse
unfolding candidate_key encode_flow_key encode_tcp_flow_key u16_bytes
candidate_key_lem flow port h =
    let c = flow.client_ip in
    let o = flow.pod_ip in
    let rest : List ℕ = u16_bytes flow.target_port ++ flow.proto ∷ [] in
    let tag : List ℕ = 1 ∷ [] in
    ap (write_at 32 (u16_bytes port)) (tag_last c o (u16_bytes 0) rest tag)
    ∙ patched c o (u16_bytes 0) (u16_bytes port) (rest ++ tag) h.client_ip_length h.pod_ip_length
        refl refl
    ∙ sym (tag_last c o (u16_bytes port) rest tag)

pub insert_flow-pins :
    (key : List ℕ) (value : FlowValue) (n : Node)
    → (flow_key_direction key ≡ some forward → ⊥)
    → SamePins n (insert_flow key value n)
insert_flow-pins key value n h = (
  λ k d.
      let other : is_yes (Bytes-discrete key k) ≡ false =
        elim (Bool-cases (is_yes (Bytes-discrete key k))) [
          | inl e ↦ absurd (h (ap flow_key_direction ((is_yes_iff (Bytes-discrete key k)).0 e) ∙ d))
          | inr e ↦ e
        ] in
      elim (Bool-cases (has_key k (evicted_now n.evictions))) [
        | inl e ↦
            inr (
              flow_at-insert_flow key k value n ∙ rw (other, e) refl,
              will_evict-now n.evictions k e,
            )
        | inr e ↦ inl (flow_at-insert_flow key k value n ∙ rw (other, e) refl)
      ],
  refl,
  insert_flow-EvictsLater key value n,
)
