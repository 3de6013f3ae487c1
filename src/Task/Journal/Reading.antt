-- ===== src/Task/Journal/Reading.antt =====
-- artifacts/task-journal.ts, `readTimeline`: what holds of every task history that can be read.
use Prim.Native.String.{len}
use agent_harness_os.Base.{
  ℕ, suc, ◌+◌, String, ◌≡◌, refl, sym, subst, ◌∙◌, inl, Bool, true, false, not, ◌&&◌, Option, none,
  some, List, [], ◌∷◌, ◌++◌, arith, ltb, nat_beq, ◌==◌, ==_sound, nat_eq, string_eq, option_eq,
  length, length-append, In-append_left, In-append_right, ok, throw_if, Ensures, Ensures->>=,
  Ensures-map, Ensures-ok, ok-injective, throw_if_inv,
}
use agent_harness_os.Task.Types.{
  in_progress, TaskEventProjection, TaskCreated, TaskEventData, task_created, TaskEvent, call_eq,
  validation_eq, evaluation_eq, policy_eq, task_status_eq, application_eq, dimension_eq,
}
use agent_harness_os.Domain.{worker_mode_eq, capability_eq, run_status_eq}
use agent_harness_os.Workflow.Definition.{Dates, is_uuid}
use agent_harness_os.Task.Validation.{
  is_task_event_data, is_task_envelope, invalid_task_journal, validate_task_event,
}
use agent_harness_os.Task.Projection.{
  is_patch_application_event, clone_task_projection, first_task_projection, project_task_created,
  project_task_later, project_task_payload, project_task_event,
}
use agent_harness_os.Task.Projection.Invariant.{TaskInv}
use agent_harness_os.Task.Projection.Invariant.Events.{IsSomeTask, project_task_event-TaskInv}
use agent_harness_os.Task.Journal.{
  TaskRuntime, TaskFile, TaskReadState, TaskReadResult, max_events_per_task,
  max_task_timeline_bytes, initial_read, parsed_task_event, read_task_event, read_task_events,
  task_read_result, read_task_timeline,
}
use agent_harness_os.Task.Journal.History.{Recorded, project_task_data-Recorded}

-- The projection so far, if there is one, and the events that it was made of.
abbrev RecordedSoFar : List TaskEvent → Option TaskEventProjection → Type 0
RecordedSoFar events none = length events ≡ 0
RecordedSoFar events (some p) = TaskInv p × Recorded events p

RecordedSoFar-IsSomeTask :
    (events : List TaskEvent) (current : Option TaskEventProjection)
    → RecordedSoFar events current
    → IsSomeTask current
RecordedSoFar-IsSomeTask events none h = tt
RecordedSoFar-IsSomeTask events (some p) (lawful, h) = lawful

module _ (events : List TaskEvent) (event : TaskEvent) (sha : String) (append : Bool) where
  clone-Recorded :
      (p : TaskEventProjection)
      → event.sequence ≡ length events + 1
      → Recorded events p
      → Recorded (events ++ event ∷ []) (clone_task_projection p event sha)
  unfolding clone_task_projection
  clone-Recorded p next v = record {
    limit_bounded = v.limit_bounded;
    limit_covered = v.limit_covered;
    counted = next ∙ sym (length-append events (event ∷ []));
    approval_recorded = λ h.
        let (run_id, e, run, known, approval) = v.approval_recorded h in
        (run_id, e, run, In-append_left e events (event ∷ []) known, approval);
  }

  first-Recorded :
      (e : TaskCreated)
      → length events ≡ 0
      → Recorded (events ++ event ∷ []) (first_task_projection e event sha)
  unfolding first_task_projection
  first-Recorded e fresh = record {
    limit_bounded = omega arith;
    limit_covered = omega arith;
    counted = omega (arith, length-append events (event ∷ []), fresh);
    approval_recorded = λ h. cc;
  }

  project_task_later-Recorded :
      (dates : Dates) (version sequence : ℕ) (current : Option TaskEventProjection)
      → event.sequence ≡ length events + 1
      → is_task_event_data dates version sequence event.payload ≡ true
      → RecordedSoFar events current
      → Ensures (Recorded (events ++ event ∷ [])) (project_task_later current event sha append)
  unfolding project_task_later
  project_task_later-Recorded dates version sequence none next valid v = tt
  project_task_later-Recorded dates version sequence (some p) next valid (lawful, v) =
      let Q = Recorded (events ++ event ∷ []) in
      Ensures->>= Q (throw_if (not (event.schema_version == p.event_schema_version)) _) _
        λ u same_version.
          Ensures->>= Q
            (throw_if
              (not (p.summary.status == in_progress)
                && not (is_patch_application_event event.payload))
              _)
            _
            λ w open_task.
              project_task_data-Recorded (events ++ event ∷ []) (clone_task_projection p event sha)
                (clone-Recorded p next v) dates version sequence event event.payload append
                (In-append_right event events (event ∷ []) (inl refl)) refl valid

  project_task_payload-Recorded :
      (dates : Dates) (version sequence : ℕ) (current : Option TaskEventProjection)
      (d : TaskEventData)
      → event.payload ≡ d
      → event.sequence ≡ length events + 1
      → is_task_event_data dates version sequence event.payload ≡ true
      → RecordedSoFar events current
      → Ensures (Recorded (events ++ event ∷ [])) (project_task_payload d current event sha append)
  unfolding project_task_payload project_task_created
  project_task_payload-Recorded dates version sequence none (task_created e) f next valid v =
      first-Recorded e v
  project_task_payload-Recorded dates version sequence (some p) (task_created e) f next valid v = tt
  project_task_payload-Recorded dates version sequence current _ f next valid v =
      project_task_later-Recorded dates version sequence current next valid v

  project_task_event-Recorded :
      (dates : Dates) (version sequence : ℕ) (current : Option TaskEventProjection)
      → event.sequence ≡ length events + 1
      → is_task_event_data dates version sequence event.payload ≡ true
      → RecordedSoFar events current
      → (q : TaskEventProjection) → project_task_event current event sha append ≡ ok q
      → Recorded (events ++ event ∷ []) q
  unfolding project_task_event
  project_task_event-Recorded dates version sequence current next valid v q =
      Ensures-ok (Recorded (events ++ event ∷ [])) _ (
        project_task_payload-Recorded dates version sequence current event.payload refl next valid
          v)

abbrev ReadWith : ℕ → TaskReadState → Type 0
ReadWith n st = RecordedSoFar st.events st.projection × (length st.events ≡ n)

module _ (rt : TaskRuntime) (task_id first_sha256 : String) where
  -- An event that was parsed is valid.
  parsed_task_event_lem :
      (parsed : Option TaskEvent) (sequence : ℕ) (event : TaskEvent)
      → parsed_task_event rt parsed task_id sequence ≡ ok event
      → (event.sequence ≡ sequence)
        × (is_task_event_data rt.dates event.schema_version sequence event.payload ≡ true)
  unfolding parsed_task_event validate_task_event is_task_envelope
  parsed_task_event_lem none sequence event h = absurd (cc)
  parsed_task_event_lem (some e) sequence event h =
      let (envelope, h1) =
        throw_if_inv (not (is_task_envelope rt.dates e task_id sequence)) _ _ h in
      let (content, h2) =
        throw_if_inv (not (is_task_event_data rt.dates e.schema_version sequence e.payload))
          invalid_task_journal _ h1 in
      subst
        (λ x.
          (x.sequence ≡ sequence)
          × (is_task_event_data rt.dates x.schema_version sequence x.payload ≡ true))
        {x = e} (ok-injective h2) (==_sound e.sequence sequence (ground arith), ground arith)

  read_task_event-RecordedSoFar :
      (st : TaskReadState) (file : TaskFile)
      → RecordedSoFar st.events st.projection
      → Ensures
          (ReadWith (length st.events + 1))
          (read_task_event rt task_id first_sha256 (length st.events + 1) st file)
  unfolding read_task_event
  read_task_event-RecordedSoFar st file v =
      let n = length st.events + 1 in
      let Q = ReadWith n in
      Ensures->>= Q (throw_if (not (file.file_sequence == n)) _) _ λ _ c1.
        Ensures->>= Q (throw_if (ltb max_task_timeline_bytes (st.bytes_read + len file.contents)) _)
          _
          λ _ c2.
            Ensures->>= Q (parsed_task_event rt (rt.parse file.contents) task_id n) _ λ event c3.
              Ensures->>= Q (throw_if (rt.contains_credential_material event) _) _ λ _ c4.
                Ensures->>= Q (throw_if (not (rt.sha256 file.contents == file.file_sha256)) _) _
                  λ _ c5.
                    Ensures->>= Q
                      (throw_if (not (event.previous_event_sha256 == st.previous_event_sha256)) _) _
                      λ _ c6.
                        Ensures->>= Q
                          (throw_if (n == 1 && not (file.file_sha256 == first_sha256)) _) _
                          λ _ c7.
                            Ensures->>= Q
                              (project_task_event st.projection event file.file_sha256 false) _
                              λ p c8.
                                let (next, valid) =
                                  parsed_task_event_lem (rt.parse file.contents) n event c3 in
                                (
                                  (
                                    project_task_event-TaskInv st.projection event file.file_sha256
                                        false (RecordedSoFar-IsSomeTask st.events st.projection v) p
                                        c8,
                                    project_task_event-Recorded st.events event file.file_sha256
                                        false rt.dates event.schema_version n st.projection next
                                        valid v p c8,
                                  ),
                                  length-append st.events (event ∷ []),
                                )

  read_task_events-RecordedSoFar :
      (files : List TaskFile) (st : TaskReadState)
      → RecordedSoFar st.events st.projection
      → Ensures
          (ReadWith (length st.events + length files))
          (read_task_events rt task_id first_sha256 (length st.events + 1) st files)
  unfolding read_task_events
  read_task_events-RecordedSoFar [] st v = (v, omega arith)
  read_task_events-RecordedSoFar (file ∷ files) st v =
      Ensures->>= (ReadWith (length st.events + suc (length files)))
        (read_task_event rt task_id first_sha256 (length st.events + 1) st file) _
        λ st₁ c.
          let (v₁, one) =
            Ensures-ok (ReadWith (length st.events + 1)) _ (read_task_event-RecordedSoFar st file v)
              c in
          let rest = read_task_events-RecordedSoFar files st₁ v₁ in
          subst
            (λ n.
              Ensures (ReadWith (length st.events + suc (length files)))
                (read_task_events rt task_id first_sha256 n st₁ files))
            (omega (arith, one))
            (Ensures-map (ReadWith (length st₁.events + length files))
              (ReadWith (length st.events + suc (length files))) _
              (λ st₂ h. (h.0, h.1 ∙ (omega (arith, one)))) rest)

  -- A history that was read has the invariant, and its projection is what its events make of it.
  pub read_task_timeline-Recorded :
      (files : List TaskFile) (r : TaskReadResult)
      → read_task_timeline rt task_id first_sha256 files ≡ ok r
      → TaskInv r.result_projection
        × Recorded r.result_events r.result_projection
        × (length r.result_events ≡ length files)
  unfolding read_task_timeline task_read_result
  read_task_timeline-Recorded files r h =
      Ensures-ok IsRecorded _
        (Ensures->>= IsRecorded (throw_if (not (is_uuid task_id)) _) _ λ u c1.
          Ensures->>= IsRecorded (throw_if (nat_beq (length files) 0) _) _ λ u c2.
            Ensures->>= IsRecorded (throw_if (ltb max_events_per_task (length files)) _) _ λ u c3.
              Ensures->>= IsRecorded (read_task_events rt task_id first_sha256 1 initial_read files)
                _
                λ st c4.
                  let (v, n) =
                    Ensures-ok (ReadWith (0 + length files)) _
                      (read_task_events-RecordedSoFar files initial_read refl) c4 in
                  result-IsRecorded st.projection st (v, omega (arith, n)))
        h
    where
      IsRecorded : TaskReadResult → Type 0
      IsRecorded r =
          TaskInv r.result_projection
          × Recorded r.result_events r.result_projection
          × (length r.result_events ≡ length files)

      result-IsRecorded :
          (current : Option TaskEventProjection) (st : TaskReadState)
          → RecordedSoFar st.events current × (length st.events ≡ length files)
          → Ensures IsRecorded (task_read_result rt current st)
      result-IsRecorded none st v = tt
      result-IsRecorded (some p) st ((lawful, v), n) = (lawful, v, n)
