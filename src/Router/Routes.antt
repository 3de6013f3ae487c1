-- ===== src/Router/Routes.antt =====
-- provider/router.ts: what a route holds, and when there is one.
use agent_harness_os.Base.{
  ◌≤◌, String, ◌≡◌, refl, sym, ap, subst, ◌∙◌, ◌↔◌, inl, inr, Bool, true, false, false≢true, Option,
  none, some, List, [], ◌∷◌, arith, Bool-cases, ◌==◌, ==_sound, nat_eq, string_eq, option_eq,
  not-eq-false, length, filter, In, In-map, In-map_inv, harness_error, ok, >>=-eq-ok,
  throw_if-eq-ok, ok-injective, pass, throw_if-pass, throw_if_inv,
}
use agent_harness_os.Domain.{
  WorkerMode, WorkerRoutingPolicy, worker_mode_eq, capability_eq, run_status_eq,
}
use agent_harness_os.Router.{
  WorkerConfig, HarnessConfig, WorkerRouteCandidate, WorkerRoute, Ordering, is_worker_configured,
  worker_satisfies_policy, score_worker, find_worker, required_for, declared_candidates,
  check_found, check_preferred_worker, attempts, route_of, sort_candidates, route_workers,
}
use agent_harness_os.Router.Sorting.{In-sort, StartsWith, sort-StartsWith}

In-filter :
    {A : Type 0} (p : A → Bool) (x : A) (xs : List A)
    → In x (filter p xs) ↔ (In x xs × (p x ≡ true))
In-filter p x [] = (λ h. absurd h, λ h. absurd h.0)
In-filter p x (y ∷ ys) =
    let (to, from) = In-filter p x ys in
    elim (Bool-cases (p y)) [
      | inl holds ↦ rw holds (
        λ h. elim h [
          | inl e ↦ (inl e, subst (λ z. p z ≡ true) (sym e) holds)
          | inr m ↦ (inr (to m).0, (to m).1)
        ],
        λ (m, px). elim m [ inl e ↦ inl e | inr n ↦ inr (from (n, px)) ],
      )
      | inr fails ↦ rw fails (
        λ h. (inr (to h).0, (to h).1),
        λ (m, px). elim m [
          | inl e ↦ absurd (false≢true (sym fails ∙ ap p (sym e) ∙ px))
          | inr n ↦ from (n, px)
        ],
      )
    ]

find_worker-found :
    (id : String) (ws : List WorkerConfig) (w : WorkerConfig)
    → find_worker id ws ≡ some w
    → In w ws × (w.id ≡ id)
unfolding find_worker
find_worker-found id [] w h = absurd (cc)
find_worker-found id (v ∷ ws) w h = elim (Bool-cases (v.id == id)) [
  | inl holds ↦ ground (arith, ==_sound v.id id)
  | inr fails ↦ let (m, e) = find_worker-found id ws w (rw fails at h) in (inr m, e)
]

In-not_empty : {A : Type 0} (x : A) (xs : List A) → In x xs → (length xs == 0) ≡ false
In-not_empty x [] h = absurd h
In-not_empty x (y ∷ ys) h = ground arith

module _ (locale_compare : String → String → Ordering) (config : HarnessConfig) (mode : WorkerMode)
    (policy : WorkerRoutingPolicy) where
  abbrev satisfies : WorkerConfig → Bool
  satisfies = worker_satisfies_policy mode (required_for mode policy) policy

  abbrev sorted : List WorkerRouteCandidate
  sorted =
      sort_candidates locale_compare policy.preferred_worker_id
        (declared_candidates config mode policy)

  satisfies-configured : (w : WorkerConfig) → satisfies w ≡ true → is_worker_configured w ≡ true
  unfolding worker_satisfies_policy
  satisfies-configured w h = ground arith

  declared-In :
      (w : WorkerConfig)
      → In w config.workers
      → satisfies w ≡ true
      → (c : WorkerRouteCandidate) × In c (declared_candidates config mode policy) × (c.worker ≡ w)
  unfolding declared_candidates score_worker
  declared-In w m h =
      let inner =
        (In-filter is_worker_configured w config.workers).1 (m, satisfies-configured w h) in
      (_, In-map _ w _ ((In-filter satisfies w _).1 (inner, h)), refl)

  declared_inv :
      (c : WorkerRouteCandidate)
      → In c (declared_candidates config mode policy)
      → In c.worker config.workers × (satisfies c.worker ≡ true)
  unfolding declared_candidates score_worker
  declared_inv c m =
      let (w, inner, e) = In-map_inv _ c _ m in
      let (outer, s) = (In-filter satisfies w _).0 inner in
      let same_worker : c.worker ≡ w = ap (λ d. d.worker) e in
      (
        subst (λ v. In v config.workers) (sym same_worker)
            ((In-filter is_worker_configured w config.workers).0 outer).0,
        subst (λ v. satisfies v ≡ true) (sym same_worker) s,
      )

  -- What a run that returns has computed.
  route_workers_inv :
      (r : WorkerRoute)
      → route_workers locale_compare config mode policy ≡ ok r
      → (r ≡ route_of config mode policy sorted)
        × ((length sorted == 0) ≡ false)
        × (check_preferred_worker config mode policy policy.preferred_worker_id ≡ ok tt)
  unfolding route_workers
  route_workers_inv r h =
      let (u, checked, rest) =
        >>=-eq-ok (check_preferred_worker config mode policy policy.preferred_worker_id) _ h in
      let (some_left, built) = throw_if_inv (length sorted == 0) _ _ rest in
      (sym (ok-injective built), some_left, checked)

  -- The workers of a route are exactly the workers of the configuration that satisfy the policy: enabled,
  -- without configuration issues, with the mode and every required capability, and within its cost and
  -- latency tiers.
  pub route_workers-candidates :
      (r : WorkerRoute)
      → route_workers locale_compare config mode policy ≡ ok r
      → (w : WorkerConfig)
      → ((c : WorkerRouteCandidate) × In c r.candidates × (c.worker ≡ w))
        ↔ (In w config.workers × (satisfies w ≡ true))
  route_workers-candidates r h w =
      let (built, _, _) = route_workers_inv r h in
      let list : r.candidates ≡ sorted = ap (λ x. x.candidates) built in
      (
        λ (c, m, e).
            let found = declared_inv c (
              (In-sort locale_compare policy.preferred_worker_id c _).0
                (subst (λ l. In c l) list m)) in
            subst (λ v. In v config.workers × (satisfies v ≡ true)) e found,
        λ (m, s).
            let (c, d, e) = declared-In w m s in
            (
              c,
              subst (λ l. In c l) (sym list)
                  ((In-sort locale_compare policy.preferred_worker_id c _).1 d),
              e,
            ),
      )

  found_satisfies :
      (found : Option WorkerConfig)
      → check_found mode policy found ≡ ok tt
      → (w : WorkerConfig) × (found ≡ some w) × (satisfies w ≡ true)
  unfolding check_found
  found_satisfies none h = absurd (cc)
  found_satisfies (some w) h = (w, refl, not-eq-false (throw_if-eq-ok _ _ h))

  preferred_satisfies :
      (id : String)
      → policy.preferred_worker_id ≡ some id
      → check_preferred_worker config mode policy policy.preferred_worker_id ≡ ok tt
      → (w : WorkerConfig) × In w config.workers × (w.id ≡ id) × (satisfies w ≡ true)
  unfolding check_preferred_worker
  preferred_satisfies id p h =
      let checked = subst (λ o. check_preferred_worker config mode policy o ≡ ok tt) p h in
      let (w, found, s) = found_satisfies (find_worker id config.workers) checked in
      let (m, e) = find_worker-found id config.workers w found in (w, m, e, s)

  -- The worker that a policy prefers is the first candidate of the route.
  pub route_workers-preferred_first :
      (r : WorkerRoute) (id : String)
      → policy.preferred_worker_id ≡ some id
      → route_workers locale_compare config mode policy ≡ ok r
      → StartsWith locale_compare policy.preferred_worker_id id r.candidates
  route_workers-preferred_first r id p h =
      let (built, _, checked) = route_workers_inv r h in
      let (w, m, e, s) = preferred_satisfies id p checked in
      let (c, d, same_worker) = declared-In w m s in
      subst (StartsWith locale_compare policy.preferred_worker_id id)
        (ap (λ x. x.candidates) (sym built))
        (sort-StartsWith locale_compare policy.preferred_worker_id id c _ p
          (ap (λ v. v.id) same_worker ∙ e) d)

  -- With limits of at least one attempt, a route makes at least one attempt, no more than its candidates
  -- and than the policy allows, and exactly one if the policy allows no fallback.
  pub route_workers-attempts :
      (r : WorkerRoute)
      → 1 ≤ policy.max_attempts
      → 1 ≤ config.max_attempts
      → route_workers locale_compare config mode policy ≡ ok r
      → (1 ≤ r.max_attempts)
        × (r.max_attempts ≤ length r.candidates)
        × (r.max_attempts ≤ policy.max_attempts)
        × (policy.allow_fallback ≡ false → r.max_attempts ≡ 1)
  unfolding attempts
  route_workers-attempts r lp lc h =
      let (built, some_left, _) = route_workers_inv r h in
      subst
        (λ (x : WorkerRoute).
          (1 ≤ x.max_attempts)
          × (x.max_attempts ≤ length x.candidates)
          × (x.max_attempts ≤ policy.max_attempts)
          × (policy.allow_fallback ≡ false → x.max_attempts ≡ 1))
        (sym built) (ground arith)

  -- Without a preferred worker, a route is found as soon as one worker of the configuration satisfies the
  -- policy.
  pub route_workers_found :
      (w : WorkerConfig)
      → policy.preferred_worker_id ≡ none
      → In w config.workers
      → satisfies w ≡ true
      → (r : WorkerRoute) × (route_workers locale_compare config mode policy ≡ ok r)
  unfolding route_workers check_preferred_worker
  route_workers_found w p m s =
      let (c, d, _) = declared-In w m s in
      let inside = (In-sort locale_compare policy.preferred_worker_id c _).1 d in
      (
        route_of config mode policy sorted,
        pass _ (ap (check_preferred_worker config mode policy) p)
            ∙ throw_if-pass (harness_error "NO_WORKER_ROUTE") _ (In-not_empty c sorted inside),
      )
