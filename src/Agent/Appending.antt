-- ===== src/Agent/Appending.antt =====
-- worker/service.ts with artifacts/task-journal.ts: recording an event is `append` on a timeline that was read.
use Prim.Native.String.{len}
use agent_harness_os.Base.{
  ◌+◌, String, ◌≡◌, refl, sym, ap, subst, ◌⊎◌, inl, inr, true, some, List, [], ◌∷◌, ◌++◌, ltb, leb,
  length, HarnessError, Result, ok, err, ◌>>=◌, throw_if, ok-injective, pass, throw_if_inv,
}
use agent_harness_os.Task.Types.{TaskEventData, TaskEvent}
use agent_harness_os.Task.Projection.{project_task_event}
use agent_harness_os.Task.Journal.{
  TaskRuntime, TaskFile, TaskReadResult, max_task_event_bytes, max_events_per_task,
  max_task_timeline_bytes, task_event_limit, task_contains_secret, redact_event_input,
  create_task_event, serialize_task_event, task_file, read_task_timeline, write_task_event,
  append_task_event,
}
use agent_harness_os.Agent.Observing.{Stamps, finish_recording, check_recorded, record_event}

module _ (rt : TaskRuntime) (current : TaskReadResult) (files : List TaskFile) where
  -- A recording and an append fail with the same error, or both hold the same event after those before.
  pub Mirrors : Result TaskReadResult → Result (TaskEvent × List TaskFile) → Type 0
  Mirrors x y =
      ((next : TaskReadResult) × (event : TaskEvent) × (x ≡ ok next)
        × (y ≡ ok (event, files ++ task_file rt event (rt.stringify event) ∷ []))
        × (next.result_events ≡ current.result_events ++ event ∷ []))
      ⊎ ((e : HarnessError) × (x ≡ err e) × (y ≡ err e))

  Mirrors-bind :
      {A : Type 0} (m : Result A) (k : A → Result TaskReadResult)
      (l : A → Result (TaskEvent × List TaskFile))
      → ((a : A) → m ≡ ok a → Mirrors (k a) (l a))
      → Mirrors (m >>= k) (m >>= l)
  unfolding Mirrors
  Mirrors-bind (err e) k l same = inr (e, refl, refl)
  Mirrors-bind (ok a) k l same = same a refl

  serialized_lem :
      (event : TaskEvent) (serialized : String)
      → serialize_task_event rt event ≡ ok serialized
      → serialized ≡ rt.stringify event
  unfolding serialize_task_event
  serialized_lem event serialized made =
      let (_, k) = throw_if_inv (ltb max_task_event_bytes (len (rt.stringify event))) _ _ made in
      sym (ok-injective k)

  check_recorded-Mirrors :
      (event : TaskEvent)
      → Mirrors (check_recorded rt current event) (write_task_event rt current files event)
  unfolding check_recorded write_task_event finish_recording Mirrors
  check_recorded-Mirrors event =
      Mirrors-bind (throw_if (rt.contains_credential_material event) task_contains_secret) _ _
        λ u h. Mirrors-bind (serialize_task_event rt event) _ _ λ serialized made.
          Mirrors-bind
            (project_task_event (some current.result_projection) event (rt.sha256 serialized) true)
            _ _
            λ p k.
              Mirrors-bind
                (throw_if (ltb max_task_timeline_bytes (current.result_bytes + len serialized))
                  task_event_limit)
                _ _
                λ u' h'. inl (
                  _,
                  event,
                  refl,
                  ap (λ s. ok (event, files ++ task_file rt event s ∷ []))
                      (serialized_lem event serialized made),
                  refl,
                )

  -- Where a timeline is read, recording an event on it and appending the event to its files mirror each other.
  pub record_event-append :
      (stamps : Stamps) (first_sha256 : String) (d : TaskEventData)
      → read_task_timeline rt current.result_projection.summary.task_id first_sha256 files
        ≡ ok current
      → Mirrors (record_event rt stamps current d) (
          append_task_event rt current.result_projection.summary.task_id first_sha256 files
            (stamps.event_id_at (length current.result_events + 1))
            (stamps.occurred_at (length current.result_events + 1))
            d)
  unfolding record_event append_task_event
  record_event-append stamps first_sha256 d read =
      subst (Mirrors (record_event rt stamps current d)) (sym (pass _ read)) (
        Mirrors-bind
          (throw_if (leb max_events_per_task (length current.result_events)) task_event_limit) _ _
          λ u h.
            Mirrors-bind
              (create_task_event rt current.result_projection.event_schema_version
                current.result_projection.summary.task_id (length current.result_events + 1)
                (some current.result_projection.summary.latest_event_sha256)
                (stamps.event_id_at (length current.result_events + 1))
                (stamps.occurred_at (length current.result_events + 1)) (redact_event_input rt d))
              (check_recorded rt current) (write_task_event rt current files)
              λ event made. check_recorded-Mirrors event)
