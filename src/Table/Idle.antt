-- ===== src/Table/Idle.antt =====
-- The check before a delete (`still_idle` of src/lib.rs) beside the snapshot's own loops.
use beep.Common.{
  ℕ, ◌≡◌, refl, ap, sym, ◌∙◌, Bool, not, ◌&&◌, ◌||◌, Option, none, some, List, [], arith, length,
  take, drop,
}
use beep.Common.Assoc.{lookup}
use beep.Flow.{GcParity, port_memo_wanted}
use beep.Wire.{
  FlowDirection, forward, reverse, port_memo, flow_key_direction, decode_tcp_flow_key, slice,
}
use beep.Wire.Bytes.{length-take, length-drop}
use beep.Wire.FlowKey.{flow_key_direction-encode_flow_key}
use beep.Table.{
  FlowValue, Table, flow_at, is_row, is_memo, swept, proto_of, memo_reverse_key, doomed_rows,
  surviving_reverse, memo_doomed, doomed_memos, idle_flow_keys, fresh_port, role_idle, idle_row,
  still_idle, backend_src_port,
}
use beep.Table.Lookup.{
  has_key, has_key-append, IsSnapshot, at_row, doomed_rows_lem, doomed_memos_lem, found_port,
  surviving_reverse_lem,
}

module _ (misread_port : FlowDirection → FlowValue → ℕ) where
  reverse_key-direction :
      (key : List ℕ) (value : FlowValue) (proto : ℕ)
      → length key ≡ 38
      → flow_key_direction (memo_reverse_key misread_port key value proto).1 ≡ some reverse
  unfolding memo_reverse_key decode_tcp_flow_key
  reverse_key-direction key value proto h =
      flow_key_direction-encode_flow_key (slice 0 16 (take 37 key))
        (backend_src_port misread_port value) (slice 16 16 (take 37 key)) _ proto reverse
        (omega (arith, length-take 16 (take 37 key), length-take 37 key))
        (omega (
          arith,
          length-take 16 (drop 16 (take 37 key)),
          length-drop 16 (take 37 key),
          length-take 37 key,
        ))

  found-fresh_port :
      (class : ℕ) (parity : GcParity) (key : List ℕ) (row : Option FlowValue)
      → flow_key_direction key ≡ some reverse
      → found_port misread_port class parity key row none
        ≡ fresh_port misread_port key class parity row
  found-fresh_port class parity key none e = refl
  found-fresh_port class parity key (some v) e = rw e (ground arith)

  memo_doomed-role_idle :
      (rows : Table) (class : ℕ) (parity : GcParity) (key : List ℕ) (value : FlowValue)
      → IsSnapshot rows
      → length key ≡ 38
      → memo_doomed misread_port (surviving_reverse misread_port class parity [] rows) key value
        ≡ role_idle misread_port (some port_memo) key value class parity (flow_at rows)
  unfolding memo_doomed lookup
  memo_doomed-role_idle rows class parity key value m h =
      let memo = memo_reverse_key misread_port key value (proto_of key) in
      let found =
        surviving_reverse_lem misread_port class parity rows [] memo.1 m
        ∙ found-fresh_port class parity memo.1 (flow_at rows memo.1)
            (reverse_key-direction key value (proto_of key) h) in
      ap (λ (port : Option ℕ). not (port_memo_wanted memo.0 port)) found

  by_role :
      (direction : Option FlowDirection) (sweeps dooms : Bool) (key : List ℕ) (value : FlowValue)
      (class : ℕ) (parity : GcParity) (fresh : List ℕ → Option FlowValue)
      → sweeps ≡ swept key value class parity
      → dooms ≡ role_idle misread_port (some port_memo) key value class parity fresh
      → role_idle misread_port direction key value class parity fresh
        ≡ ((is_row direction && sweeps) || (is_memo direction && dooms))
  by_role none s d key value class parity fresh e f = refl
  by_role (some forward) s d key value class parity fresh e f = ground (arith, e)
  by_role (some reverse) s d key value class parity fresh e f = ground (arith, e)
  by_role (some port_memo) s d key value class parity fresh e f = sym f

  -- On a snapshot of the table, where every key stands once, the check that runs just before a
  -- delete, with the snapshot as the current table, lets through exactly the keys of `idle_flow_keys`,
  -- for every key of the table's length and whatever a read of the wrong arm gives.
  pub still_idle-idle_flow_keys :
      (rows : Table) (class : ℕ) (parity : GcParity) (key : List ℕ)
      → IsSnapshot rows
      → length key ≡ 38
      → still_idle misread_port key class parity (flow_at rows)
        ≡ has_key key (idle_flow_keys misread_port rows class parity)
  unfolding still_idle idle_flow_keys
  still_idle-idle_flow_keys rows class parity key m h =
      let surviving = surviving_reverse misread_port class parity [] rows in
      let first = doomed_rows_lem misread_port class parity rows key m in
      let second = doomed_memos_lem misread_port class parity surviving rows key m in
      let all =
        has_key-append key (doomed_rows misread_port class parity rows)
          (doomed_memos misread_port surviving rows) in
      by_cases (flow_at rows key) refl ∙ sym (all ∙ rw (first, second) refl)
    where
      by_cases :
          (row : Option FlowValue)
          → flow_at rows key ≡ row
          → idle_row misread_port key class parity (flow_at rows) row ≡ (
              at_row (λ v. is_row (flow_key_direction key) && swept key v class parity) row
              || at_row
                  (λ v.
                    is_memo (flow_key_direction key)
                    && memo_doomed misread_port
                        (surviving_reverse misread_port class parity [] rows)
                        key
                        v)
                  row)
      by_cases none e = refl
      by_cases (some value) e =
          by_role (flow_key_direction key) _ _ key value class parity (flow_at rows) refl
            (memo_doomed-role_idle rows class parity key value m h)
