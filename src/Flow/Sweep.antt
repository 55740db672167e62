-- ===== src/Flow/Sweep.antt =====
-- The idle sweep of conntrack rows: `row_swept` (src/lib.rs) and one turn of `run_idle_sweep_loop`
-- (controller/src/main.rs), which deletes the idle rows of a class and then flips its parity.
use beep.Common.{
  ℕ, suc, ◌≤◌, ◌≡◌, Bool, false, not, ◌&&◌, ◌||◌, Option, none, some, List, [], ◌∷◌, arith, ◌==◌,
  leb, if◌then◌else◌, refl, ◌⊎◌, ◌∙◌, ap,
}
use beep.Flow.{
  FlowSide, GcParity, sweep_class, parity_sweep_deletes, ipproto_tcp, ipproto_udp, flow_step_flags,
  has_bits, flow_flag_udp_parity, flow_flag_tcp_parity, bool_ne,
}
use beep.Flow.Marks.{Marks, marks, seen}
use beep.Flow.Lifecycle.{row_flags, refuses, life, flow_step_flags-refines}

-- Whether the sweep of `class` deletes a row with these flags.
unfoldable pub row_swept : ℕ → ℕ → ℕ → GcParity → Bool
unfolding sweep_class parity_sweep_deletes
row_swept proto flags class parity =
    sweep_class flags proto == class && parity_sweep_deletes flags proto parity

-- The two classes that the loop sweeps.
pub data Class : Type 0 where
  udp_class tcp_class : Class

abbrev pub class_proto : Class → ℕ
class_proto udp_class = ipproto_udp
class_proto tcp_class = ipproto_tcp

-- The loop hands a pass the parity of its own class only.
unfoldable pub class_parity : Class → GcParity → GcParity
class_parity udp_class parity = record { udp = parity.udp; tcp = false }
class_parity tcp_class parity = record { udp = false; tcp = parity.tcp }

unfoldable pub flip_parity : Class → GcParity → GcParity
flip_parity udp_class parity = record parity { udp = not parity.udp }
flip_parity tcp_class parity = record parity { tcp = not parity.tcp }

-- A row of one protocol, if it is there, beside the global parities.
pub record GcState : Type 0 where
  pub row : Option ℕ
  pub parity : GcParity

abbrev swept_row : ℕ → Class → GcParity → Option ℕ → Option ℕ
swept_row proto class parity none = none
swept_row proto class parity (some flags) =
    if row_swept proto flags (class_proto class) (class_parity class parity)
    then none
    else some flags

-- A pass over the row, and the flip behind it.
unfoldable pub sweep_pass : ℕ → Class → GcState → GcState
unfolding row_swept class_parity flip_parity
sweep_pass proto class s = record {
  row = swept_row proto class s.parity s.row;
  parity = flip_parity class s.parity;
}

unfoldable pub sweep_passes : ℕ → List Class → GcState → GcState
sweep_passes proto [] s = s
sweep_passes proto (c ∷ cs) s = sweep_passes proto cs (sweep_pass proto c s)

-- The passes of the sweep that owns a row with these flags.
abbrev pub own_passes : ℕ → ℕ → List Class → ℕ
own_passes proto flags [] = 0
own_passes proto flags (c ∷ cs) =
    if sweep_class flags proto == class_proto c
    then suc (own_passes proto flags cs)
    else own_passes proto flags cs

-- The protocols that the datapath tracks.
abbrev pub Tracked : ℕ → Type 0
Tracked proto = (proto ≡ ipproto_tcp) ⊎ (proto ≡ ipproto_udp)

sweep_class-Tracked : (flags proto : ℕ) → Tracked proto → Tracked (sweep_class flags proto)
unfolding sweep_class
sweep_class-Tracked flags proto t = ground arith

deletes_udp :
    (proto flags : ℕ) (parity : GcParity)
    → sweep_class flags proto ≡ ipproto_udp
    → parity_sweep_deletes flags proto parity
      ≡ bool_ne (has_bits flags flow_flag_udp_parity) parity.udp
unfolding parity_sweep_deletes
deletes_udp proto flags parity e = rw (e, parity_sweep_deletes)

deletes_tcp :
    (proto flags : ℕ) (parity : GcParity)
    → sweep_class flags proto ≡ ipproto_tcp
    → parity_sweep_deletes flags proto parity
      ≡ bool_ne (has_bits flags flow_flag_tcp_parity) parity.tcp
unfolding parity_sweep_deletes
deletes_tcp proto flags parity e = rw (e, parity_sweep_deletes)

module _ (proto flags : ℕ) (c : Class) (parity : GcParity) where
  abbrev owned : Bool
  owned = sweep_class flags proto == class_proto c

  row_swept_lem :
      row_swept proto flags (class_proto c) (class_parity c parity)
      ≡ (owned && parity_sweep_deletes flags proto parity)
  unfolding row_swept class_parity
  row_swept_lem = ground arith

  deletes-flip :
      Tracked proto
      → parity_sweep_deletes flags proto (flip_parity c parity) ≡ (
          if owned
          then not (parity_sweep_deletes flags proto parity)
          else parity_sweep_deletes flags proto parity)
  unfolding flip_parity
  deletes-flip t = ground (
    arith,
    sweep_class-Tracked flags proto t,
    deletes_udp proto flags parity,
    deletes_tcp proto flags parity,
    deletes_udp proto flags (flip_parity c parity),
    deletes_tcp proto flags (flip_parity c parity),
  )

passes_gone :
    (proto : ℕ) (cs : List Class) (parity : GcParity)
    → (sweep_passes proto cs (record { row = none; parity = parity })).row ≡ none
unfolding sweep_passes sweep_pass
passes_gone proto [] parity = refl
passes_gone proto (c ∷ cs) parity = passes_gone proto cs (flip_parity c parity)

-- How many passes of its own class a row survives from here, less one: it goes in the first if its
-- parity is stale, else in the second.
abbrev pub last_pass : ℕ → ℕ → GcParity → ℕ
last_pass proto flags parity = if parity_sweep_deletes flags proto parity then 1 else 2

sweep_pass_lem :
    (proto flags : ℕ) (c : Class) (parity : GcParity)
    → sweep_pass proto c (record { row = some flags; parity = parity }) ≡ record {
      row =
          if owned proto flags c parity && parity_sweep_deletes flags proto parity
          then none
          else some flags;
      parity = flip_parity c parity;
    }
unfolding sweep_pass
sweep_pass_lem proto flags c parity = rw row_swept_lem

passes_row :
    (proto flags : ℕ) (cs : List Class) (parity : GcParity)
    → Tracked proto
    → (sweep_passes proto cs (record { row = some flags; parity = parity })).row ≡ (
        if leb (last_pass proto flags parity) (own_passes proto flags cs) then none else some flags)
unfolding sweep_passes
passes_row proto flags [] parity t = ground arith
passes_row proto flags (c ∷ cs) parity t =
    ap (λ (s : GcState). (sweep_passes proto cs s).row) (sweep_pass_lem proto flags c parity)
    ∙ ground (
      arith,
      passes_row proto flags cs (flip_parity c parity) t,
      passes_gone proto cs (flip_parity c parity),
      deletes-flip proto flags c parity t,
    )

-- The sweep's test reads the marks alone.
abbrev idle : ℕ → GcParity → Marks → Bool
idle proto parity m =
    if proto == ipproto_udp || (proto == ipproto_tcp && m.closed)
    then bool_ne m.udp_parity parity.udp
    else if proto == ipproto_tcp
    then bool_ne m.tcp_parity parity.tcp
    else false

parity_sweep_deletes-marks :
    (f proto : ℕ) (parity : GcParity)
    → Tracked proto
    → parity_sweep_deletes f proto parity ≡ idle proto parity (marks f)
unfolding sweep_class
parity_sweep_deletes-marks f proto parity t =
    ground (arith, t, deletes_udp proto f parity, deletes_tcp proto f parity)

idle-life :
    (proto t : ℕ) (side : FlowSide) (parity : GcParity) (m : Marks)
    → idle proto parity (life proto (seen t side) parity m) ≡ false
idle-life proto t side parity m = ground arith

-- A packet leaves its row with the parity of the time.
touched_fresh :
    (exists : Bool) (f proto t : ℕ) (side : FlowSide) (parity : GcParity)
    → Tracked proto
    → refuses exists proto t ≡ false
    → parity_sweep_deletes (row_flags f (flow_step_flags exists f proto t side parity)) proto parity
      ≡ false
touched_fresh exists f proto t side parity k r =
    parity_sweep_deletes-marks _ proto parity k
    ∙ ap (idle proto parity) ((flow_step_flags-refines exists f proto t side parity).0)
    ∙ rw r (idle-life proto t side parity (marks f))

-- A TCP or UDP row that a packet has just matched (or made) stays, with the flags that the packet
-- left, through the next pass of the sweep that owns it and any passes of the other, and the second
-- pass of its own deletes it.
-- The packet is not an RST without a row.
pub sweep_exact :
    (exists : Bool) (f proto t : ℕ) (side : FlowSide) (parity : GcParity) (cs : List Class)
    → Tracked proto
    → refuses exists proto t ≡ false
    → let g = row_flags f (flow_step_flags exists f proto t side parity) in
      (sweep_passes proto cs (record { row = some g; parity = parity })).row
      ≡ (if leb 2 (own_passes proto g cs) then none else some g)
sweep_exact exists f proto t side parity cs k r =
    passes_row proto _ cs parity k ∙ rw (touched_fresh exists f proto t side parity k r)

-- Whatever its flags, a TCP or UDP row that no packet matches is gone after two passes of the sweep
-- that owns it, in whatever order the passes come.
pub sweep_reclaims :
    (proto flags : ℕ) (cs : List Class) (parity : GcParity)
    → Tracked proto
    → 2 ≤ own_passes proto flags cs
    → (sweep_passes proto cs (record { row = some flags; parity = parity })).row ≡ none
sweep_reclaims proto flags cs parity k h = ground (arith, passes_row proto flags cs parity k)
