-- ===== src/Remap/Window.antt =====
-- The ports of the probe window (`resolve_backend_src_port` of common/src/lib.rs).
use beep.Common.{
  ℕ, zero, suc, ◌≤◌, ◌<◌, ◌≡◌, ◌≢◌, sym, ◌∙◌, ap, Bool, true, false, ◌||◌, Option, List, [], ◌∷◌,
  arith, ◌==◌, if◌then◌else◌, length, Bool-cases, inl, inr,
}
use beep.Remap.{
  exhausted, Occupant, candidate, is_free, resolve_backend_src_port, probe_limit,
  synthetic_port_seed, remap_port_range,
}
use beep.Remap.Probe.{resolve_backend_src_port_lem}

abbrev pub contains : List ℕ → ℕ → Bool
contains [] x = false
contains (y ∷ ys) x = x == y || contains ys x

remove : List ℕ → ℕ → List ℕ
remove [] x = []
remove (y ∷ ys) x = if x == y then ys else y ∷ remove ys x

length-remove :
    (ys : List ℕ) (x : ℕ) → contains ys x ≡ true → length ys ≡ suc (length (remove ys x))
unfolding remove
length-remove [] x h = cc
length-remove (y ∷ ys) x h = ground (arith, length-remove ys x)

contains-remove :
    (ys : List ℕ) (x z : ℕ) → x ≢ z → contains ys z ≡ true → contains (remove ys x) z ≡ true
unfolding remove
contains-remove [] x z n h = h
contains-remove (y ∷ ys) x z n h = ground (arith, contains-remove ys x z n)

-- `n` different ports that all stand in a list make it at least `n` long.
pigeonhole :
    (n : ℕ) (f : ℕ → ℕ) (ys : List ℕ)
    → ((i j : ℕ) → i < n → j < n → f i ≡ f j → i ≡ j)
    → ((i : ℕ) → i < n → contains ys (f i) ≡ true)
    → n ≤ length ys
pigeonhole zero f ys distinct all = omega arith
pigeonhole (suc n) f ys distinct all = omega (
  arith,
  length-remove ys (f n) (all n (omega arith)),
  pigeonhole n f (remove ys (f n)) (λ i j a b. distinct i j (omega arith) (omega arith))
      λ i a.
        contains-remove ys (f n) (f i)
          (λ e. absurd (omega (arith, distinct n i (omega arith) (omega arith) e)))
          (all i (omega arith)),
)

candidate_injective :
    (seed i j : ℕ)
    → seed < remap_port_range
    → i < probe_limit
    → j < probe_limit
    → candidate seed i ≡ candidate seed j
    → i ≡ j
unfolding candidate
candidate_injective seed i j h a b e = omega arith

synthetic_port_seed-lt :
    (front_ip : List ℕ) (front_port : ℕ)
    → synthetic_port_seed front_ip front_port < remap_port_range
unfolding synthetic_port_seed
synthetic_port_seed-lt ip port = omega arith

-- Those of the first `n` values of a function that are taken.
abbrev pub taken_among : (ℕ → Bool) → (ℕ → ℕ) → ℕ → List ℕ
taken_among taken f zero = []
taken_among taken f (suc n) =
    let rest = taken_among taken f n in if taken (f n) then f n ∷ rest else rest

contains-taken_among :
    (taken : ℕ → Bool) (f : ℕ → ℕ) (n i : ℕ)
    → i < n
    → taken (f i) ≡ true
    → contains (taken_among taken f n) (f i) ≡ true
contains-taken_among taken f zero i h t = absurd (omega (arith, h))
contains-taken_among taken f (suc n) i h t = elim (Bool-cases (i == n)) [
  | inl e ↦
      let same : i ≡ n = ground (arith, e) in
      let here = ap f same in
      let held : taken (f n) ≡ true = sym (ap taken here) ∙ t in rw held (ground (arith, here))
  | inr e ↦
      let lower : i < n = ground (arith, e, h) in
      ground (arith, contains-taken_among taken f n i lower t)
]

-- If fewer than 15 of the 16 ports of its window are taken by others, a connection is not refused for
-- want of a port, however many ports outside the window are taken.
pub resolve_backend_src_port_total :
    (existing : Option Occupant) (resolving : Occupant) (taken : ℕ → Bool)
    → let seed = synthetic_port_seed resolving.front_ip resolving.front_port in
      length (taken_among taken (candidate seed) probe_limit) < 15
      → resolve_backend_src_port taken existing resolving ≢ exhausted
resolve_backend_src_port_total existing resolving taken h e =
    let seed = synthetic_port_seed resolving.front_ip resolving.front_port in
    let window = ((resolve_backend_src_port_lem taken existing resolving).2.0 e).1 in
    let held = taken_among taken (candidate seed) probe_limit in
    let full =
      pigeonhole probe_limit (candidate seed) (resolving.client_port ∷ held)
        (λ i j. candidate_injective seed i j (synthetic_port_seed-lt _ _))
        λ i a. busy seed i a (window i a) in
    absurd (omega (arith, full, h))
  where
    busy :
        (seed i : ℕ)
        → i < probe_limit
        → is_free taken resolving.client_port (candidate seed i) ≡ false
        → contains
            (resolving.client_port ∷ taken_among taken (candidate seed) probe_limit)
            (candidate seed i)
          ≡ true
    busy seed i a f = elim (Bool-cases (taken (candidate seed i))) [
      | inl t ↦
          let c = contains-taken_among taken (candidate seed) probe_limit i a t in ground (arith, c)
      | inr t ↦ ground (arith, f, t)
    ]
