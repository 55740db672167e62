-- ===== src/Remap/Probe.antt =====
-- What the probe decides, on every outcome.
use beep.Common.{
  ℕ, zero, suc, ◌+◌, ◌≤◌, ◌<◌, ◌≡◌, ◌≢◌, refl, Bool, true, false, Option, arith, ◌↔◌, inl, inr,
  Bool-cases, ap, sym, ◌∙◌,
}
use native.Mathlib.Decide.{dec_le}
use beep.Remap.{
  no_remap, remap, exhausted, probe_limit, remap_port_base, Occupant, occupant_conflicts,
  synthetic_port_seed, candidate, is_free, probe, resolve_backend_src_port,
}

pub candidate_bounds :
    (seed i : ℕ) → (remap_port_base ≤ candidate seed i) × (candidate seed i < 65536)
unfolding candidate
candidate_bounds seed i = omega arith

module _ (taken : ℕ → Bool) where
  -- The first free candidate from round `i` on.
  pub record Found (seed original i rounds port : ℕ) : Type 0 where
    pub round : ℕ
    pub from_start : i ≤ round
    pub in_time : round < i + rounds
    pub port_is : port ≡ candidate seed round
    pub free : is_free taken original port ≡ true
    pub first : (j : ℕ) → i ≤ j → j < round → is_free taken original (candidate seed j) ≡ false

  abbrev extend :
      (seed original i rounds port : ℕ)
      → is_free taken original (candidate seed i) ≡ false
      → Found seed original (i + 1) rounds port
      → Found seed original i (suc rounds) port
  extend seed original i rounds port busy f = record {
    round = f.round;
    from_start = omega (arith, f.from_start);
    in_time = omega (arith, f.in_time);
    port_is = f.port_is;
    free = f.free;
    first = λ j a b. earlier j a b (dec_le (i + 1) j);
  }
    where
      earlier :
          (j : ℕ)
          → i ≤ j
          → j < f.round
          → Dec (i + 1 ≤ j)
          → is_free taken original (candidate seed j) ≡ false
      earlier j a b (yes later) = f.first j later b
      earlier j a b (no here) =
          let same : i ≡ j = omega arith in
          ap (λ (k : ℕ). is_free taken original (candidate seed k)) (sym same) ∙ busy

  probe-remap :
      (seed original rounds i port : ℕ)
      → probe taken seed original rounds i ≡ remap port
      → Found seed original i rounds port
  unfolding probe
  probe-remap seed original zero i port e = absurd (cc)
  probe-remap seed original (suc rounds) i port e =
      elim (Bool-cases (is_free taken original (candidate seed i))) [
        | inl free ↦
            let port_is : port ≡ candidate seed i = ground arith in
            record {
              round = i;
              from_start = omega arith;
              in_time = omega arith;
              port_is = port_is;
              free = rw port_is free;
              first = λ j a b. absurd (omega arith);
            }
        | inr busy ↦
            extend seed original i rounds port busy
              (probe-remap seed original rounds (i + 1) port (rw busy at e))
      ]

  -- It runs out exactly if no candidate is free.
  probe-exhausted :
      (seed original rounds i : ℕ)
      → (probe taken seed original rounds i ≡ exhausted)
        ↔ ((k : ℕ) → k < rounds → is_free taken original (candidate seed (i + k)) ≡ false)
  unfolding probe
  probe-exhausted seed original zero i = (λ _ k h. absurd (omega arith), λ _. refl)
  probe-exhausted seed original (suc rounds) i =
      elim (Bool-cases (is_free taken original (candidate seed i))) [
        | inl free ↦
            rw free (λ e. absurd (cc e), λ all. absurd (cc (free, here (all 0 (omega arith)))))
        | inr busy ↦ rw busy (
          λ e. refused busy ((probe-exhausted seed original rounds (i + 1)).0 e),
          λ all.
              (probe-exhausted seed original rounds (i + 1)).1
                (λ k h. shifted k (all (suc k) (omega arith))),
        )
      ]
    where
      here :
          is_free taken original (candidate seed (i + 0)) ≡ false
          → is_free taken original (candidate seed i) ≡ false
      here h =
          let e : i ≡ i + 0 = omega arith in
          ap (λ (k : ℕ). is_free taken original (candidate seed k)) e ∙ h

      shifted :
          (k : ℕ)
          → is_free taken original (candidate seed (i + suc k)) ≡ false
          → is_free taken original (candidate seed (i + 1 + k)) ≡ false
      shifted k h =
          let e : i + 1 + k ≡ i + suc k = omega arith in
          ap (λ (k : ℕ). is_free taken original (candidate seed k)) e ∙ h

      refused :
          is_free taken original (candidate seed i) ≡ false
          → ((k : ℕ) → k < rounds → is_free taken original (candidate seed (i + 1 + k)) ≡ false)
          → (k : ℕ) → k < suc rounds
          → is_free taken original (candidate seed (i + k)) ≡ false
      refused busy later zero h =
          let e : i + 0 ≡ i = omega arith in
          ap (λ (k : ℕ). is_free taken original (candidate seed k)) e ∙ busy
      refused busy later (suc k) h =
          let e : i + suc k ≡ i + 1 + k = omega arith in
          ap (λ (k : ℕ). is_free taken original (candidate seed k)) e ∙ later k (omega arith)

  probe-ne-no_remap : (seed original rounds i : ℕ) → probe taken seed original rounds i ≢ no_remap
  unfolding probe
  probe-ne-no_remap seed original zero i e = cc
  probe-ne-no_remap seed original (suc rounds) i e =
      ground (arith, probe-ne-no_remap seed original rounds (i + 1))

  -- The whole window, counted from its start.
  probe-exhausted_window :
      (seed original : ℕ)
      → (probe taken seed original probe_limit 0 ≡ exhausted)
        ↔ ((k : ℕ) → k < probe_limit → is_free taken original (candidate seed k) ≡ false)
  probe-exhausted_window seed original = (
    λ e k h. from_zero k ((probe-exhausted seed original probe_limit 0).0 e k h),
    λ all. (probe-exhausted seed original probe_limit 0).1 (λ k h. to_zero k (all k h)),
  )
    where
      to_zero :
          (k : ℕ)
          → is_free taken original (candidate seed k) ≡ false
          → is_free taken original (candidate seed (0 + k)) ≡ false
      to_zero k h =
          let e : 0 + k ≡ k = omega arith in
          ap (λ (k : ℕ). is_free taken original (candidate seed k)) e ∙ h

      from_zero :
          (k : ℕ)
          → is_free taken original (candidate seed (0 + k)) ≡ false
          → is_free taken original (candidate seed k) ≡ false
      from_zero k h =
          let e : k ≡ 0 + k = omega arith in
          ap (λ (k : ℕ). is_free taken original (candidate seed k)) e ∙ h

  -- The decision is to leave the port alone exactly where no other connection holds the natural
  -- key. A synthetic port is the first candidate of the window that is not taken and not the
  -- client's own, it lies in the remap range, and the probe gives up exactly if none of its 16
  -- candidates is such.
  pub resolve_backend_src_port_lem :
      (existing : Option Occupant) (resolving : Occupant)
      → let seed = synthetic_port_seed resolving.front_ip resolving.front_port in
        ((resolve_backend_src_port taken existing resolving ≡ no_remap)
          ↔ (occupant_conflicts existing resolving ≡ false))
        × ((port : ℕ)
            → resolve_backend_src_port taken existing resolving ≡ remap port
            → Found seed resolving.client_port 0 probe_limit port
              × (remap_port_base ≤ port)
              × (port < 65536)
              × (occupant_conflicts existing resolving ≡ true))
        × ((resolve_backend_src_port taken existing resolving ≡ exhausted) ↔ (
            (occupant_conflicts existing resolving ≡ true)
            × ((k : ℕ)
                → k < probe_limit
                → is_free taken resolving.client_port (candidate seed k) ≡ false)))
  unfolding resolve_backend_src_port
  resolve_backend_src_port_lem existing resolving =
      elim (Bool-cases (occupant_conflicts existing resolving)) [
        | inl conflict ↦ rw conflict (
          (λ e. absurd (probe-ne-no_remap _ _ _ _ e), λ e. absurd (cc e)),
          λ port e.
              let f = probe-remap _ _ _ _ port e in
              let low : remap_port_base ≤ port = rw f.port_is (candidate_bounds _ f.round).0 in
              let high : port < 65536 = rw f.port_is (candidate_bounds _ f.round).1 in
              (f, low, high, refl),
          (λ e. (refl, (probe-exhausted_window _ _).0 e), λ h. (probe-exhausted_window _ _).1 h.1),
        )
        | inr clear ↦ rw clear (
          (λ _. refl, λ _. refl),
          λ port e. absurd (cc e),
          (λ e. absurd (cc e), λ h. absurd (cc (h.0))),
        )
      ]
