-- ===== src/Reconcile/Local.antt =====
-- The order of a front's endpoints (`desired_front` of controller/src/reconcile.rs).
use beep.Common.{
  ℕ, suc, ◌≡◌, refl, sym, ◌∙◌, ap, Bool, true, false, not, ◌&&◌, List, [], ◌∷◌, if◌then◌else◌, map,
  Bool-cases, inl, inr, arith,
}
use beep.Flow.{has_bits}
use beep.Maps.{FrontEndpoint, endpoint_flag_is_local}
use beep.FrontSwap.{local_run}
use beep.Reconcile.{
  Endpoint, EndpointPolicy, uniform, prefer_local, only_local, ServiceView, ServicePort, is_local,
  is_ready, is_draining, filter, sorted_insert, sort_by, is_empty, by_ip, local_first,
  local_usable_endpoints, eligible_endpoints, front_endpoint, desired_front, has_port, same_family,
  prefers_local,
}
use beep.Reconcile.Address.{IpAddr}

module _ {A : Type 0} (p : A → Bool) where
  -- How many items pass, and how many before the first that does not.
  abbrev pub count : List A → ℕ
  count [] = 0
  count (x ∷ xs) = let rest = count xs in if p x then suc rest else rest

  abbrev pub run : List A → ℕ
  run [] = 0
  run (x ∷ xs) = let rest = run xs in if p x then suc rest else 0

  abbrev none_pass : List A → Bool
  none_pass [] = true
  none_pass (x ∷ xs) = not (p x) && none_pass xs

  abbrev all_pass : List A → Bool
  all_pass [] = true
  all_pass (x ∷ xs) = p x && all_pass xs

  -- The items that pass stand first.
  abbrev pass_first : List A → Bool
  pass_first [] = true
  pass_first (x ∷ xs) = let rest = pass_first xs in if p x then rest else none_pass xs

  count-none : (xs : List A) → none_pass xs ≡ true → count xs ≡ 0
  count-none [] h = refl
  count-none (x ∷ xs) h = ground (arith, h, count-none xs)

  run-count : (xs : List A) → pass_first xs ≡ true → run xs ≡ count xs
  run-count [] h = refl
  run-count (x ∷ xs) h = ground (arith, h, run-count xs, count-none xs)

  first_of_all : (xs : List A) → all_pass xs ≡ true → pass_first xs ≡ true
  first_of_all [] h = refl
  first_of_all (x ∷ xs) h = ground (arith, h, first_of_all xs)

  first_of_none : (xs : List A) → none_pass xs ≡ true → pass_first xs ≡ true
  first_of_none [] h = refl
  first_of_none (x ∷ xs) h = ground (arith, h)

  module _ (before : A → A → Bool) where
    none_insert :
        (x : A) (xs : List A)
        → p x ≡ false
        → none_pass xs ≡ true
        → none_pass (sorted_insert before x xs) ≡ true
    none_insert x [] n h = ground (arith, n)
    none_insert x (y ∷ ys) n h = ground (arith, n, h, none_insert x ys)

    all_insert :
        (x : A) (xs : List A)
        → p x ≡ true
        → all_pass xs ≡ true
        → all_pass (sorted_insert before x xs) ≡ true
    all_insert x [] n h = ground (arith, n)
    all_insert x (y ∷ ys) n h = ground (arith, n, h, all_insert x ys)

    none_sort : (xs : List A) → none_pass xs ≡ true → none_pass (sort_by before xs) ≡ true
    none_sort [] h = refl
    none_sort (x ∷ xs) h =
        none_insert x (sort_by before xs) (ground (arith, h)) (none_sort xs (ground (arith, h)))

    all_sort : (xs : List A) → all_pass xs ≡ true → all_pass (sort_by before xs) ≡ true
    all_sort [] h = refl
    all_sort (x ∷ xs) h =
        all_insert x (sort_by before xs) (ground (arith, h)) (all_sort xs (ground (arith, h)))

  -- The order puts an item that passes before one that does not.
  abbrev IsRespected : (A → A → Bool) → Type 0
  IsRespected before =
      (a b : A) → p a ≡ true → p b ≡ false → (before a b ≡ true) × (before b a ≡ false)

  first_insert :
      (before : A → A → Bool)
      → IsRespected before
      → (x : A) (xs : List A) → pass_first xs ≡ true
      → pass_first (sorted_insert before x xs) ≡ true
  first_insert before r x [] h = ground arith
  first_insert before r x (y ∷ ys) h =
      ground (arith, h, first_insert before r x ys, none_insert before x ys, r x y, r y x)

  first_sort :
      (before : A → A → Bool)
      → IsRespected before
      → (xs : List A) → pass_first (sort_by before xs) ≡ true
  first_sort before r [] = refl
  first_sort before r (x ∷ xs) =
      first_insert before r x (sort_by before xs) (first_sort before r xs)

module _ (node_ip : IpAddr) where
  abbrev local : Endpoint → Bool
  local ep = is_local node_ip ep

  local_first-respects : IsRespected local (local_first node_ip)
  local_first-respects a b h k = rw (h, k) (refl, refl)

  -- Without a usable local endpoint no ready one is local.
  none_ready :
      (xs : List Endpoint)
      → is_empty (filter (λ ep. local ep && is_ready ep) xs) ≡ true
      → none_pass local (filter is_ready xs) ≡ true
  none_ready [] h = refl
  none_ready (x ∷ xs) h = ground (arith, h, none_ready xs)

  all_filter :
      (test : Endpoint → Bool) (xs : List Endpoint)
      → all_pass local (filter (λ ep. local ep && test ep) xs) ≡ true
  all_filter test [] = refl
  all_filter test (x ∷ xs) = ground (arith, all_filter test xs)

  -- Whatever the local endpoints in use are, they stand first.
  usable_first :
      (candidates usable : List Endpoint)
      → all_pass local usable ≡ true
      → (is_empty usable ≡ true → none_pass local (filter is_ready candidates) ≡ true)
      → pass_first local
          (sort_by by_ip (if is_empty usable then filter is_ready candidates else usable))
        ≡ true
  usable_first candidates [] a n =
      first_of_none local (sort_by by_ip (filter is_ready candidates))
        (none_sort local by_ip (filter is_ready candidates) (n refl))
  usable_first candidates (x ∷ xs) a n =
      first_of_all local (sort_by by_ip (x ∷ xs)) (all_sort local by_ip (x ∷ xs) a)

  usable_local :
      (candidates : List Endpoint)
      → (all_pass local (local_usable_endpoints candidates node_ip) ≡ true)
        × (is_empty (local_usable_endpoints candidates node_ip) ≡ true
            → none_pass local (filter is_ready candidates) ≡ true)
  unfolding local_usable_endpoints
  usable_local candidates =
      let ready = filter (λ ep. local ep && is_ready ep) candidates in
      elim (Bool-cases (is_empty ready)) [
        | inl e ↦ rw e (all_filter is_draining candidates, λ h. none_ready candidates e)
        | inr e ↦ rw e (all_filter is_ready candidates, λ h. none_ready candidates h)
      ]

  eligible_first :
      (policy : EndpointPolicy) (candidates : List Endpoint)
      → prefers_local policy ≡ true
      → pass_first local (eligible_endpoints policy candidates node_ip) ≡ true
  unfolding eligible_endpoints
  eligible_first uniform candidates h = absurd (cc h)
  eligible_first prefer_local candidates h =
      first_sort local (local_first node_ip) local_first-respects (filter is_ready candidates)
  eligible_first only_local candidates h =
      let u = usable_local candidates in usable_first candidates _ u.0 u.1

  -- The rows of the front carry the flag of the local endpoints.
  abbrev pub local_row : FrontEndpoint → Bool
  local_row row = has_bits row.flags endpoint_flag_is_local

  local_run-map :
      (port : ℕ) (eps : List Endpoint)
      → (local_run (map (front_endpoint node_ip port) eps) ≡ run local eps)
        × (count local_row (map (front_endpoint node_ip port) eps) ≡ count local eps)
  unfolding front_endpoint
  local_run-map port [] = (refl, refl)
  local_run-map port (ep ∷ eps) =
      let rest = local_run-map port eps in
      elim (Bool-cases (local ep)) [
        | inl e ↦ rw e (ap suc rest.0, ap suc rest.1)
        | inr e ↦ rw e (refl, rest.1)
      ]

-- A front whose policy prefers local endpoints lists all that it uses of them first: the leading run of
-- local rows, which the front swap publishes as the local count and the ingress hook hashes over, is as
-- long as there are local rows at all. With another policy no local count is asked for.
pub local_run-desired_front :
    (svc : ServiceView) (endpoints : List Endpoint) (node_ip : IpAddr) (port : ServicePort)
    → let want = desired_front svc endpoints node_ip port in
      (want.prefer_local ≡ prefers_local svc.policy)
      × (want.prefer_local ≡ true
          → local_run want.endpoints ≡ count (local_row node_ip) want.endpoints)
unfolding desired_front
local_run-desired_front svc endpoints node_ip port =
    let matching =
      filter (λ ep. has_port port.target_port ep.ports && same_family svc.front_ip ep) endpoints in
    let eps = eligible_endpoints svc.policy matching node_ip in
    let rows = local_run-map node_ip port.target_port eps in
    (
      refl,
      λ h.
          rows.0
          ∙ run-count (is_local node_ip) eps (eligible_first node_ip svc.policy matching h)
          ∙ sym rows.1,
    )
