-- ===== src/Workflow/Journal/Reading.antt =====
-- workflow/journal.ts, `readTimeline`: what one accepted file contributes, and induction over files.
use Prim.Native.String.{len}
use agent_harness_os.Base.{
  ℕ, suc, ◌+◌, ◌≤◌, String, ◌≡◌, refl, sym, ap, subst, ◌∙◌, false, not, ◌&&◌, Option, some, List,
  [], ◌∷◌, ◌++◌, arith, nat_beq, ◌==◌, ==_sound, nat_eq, string_eq, option_eq, not-eq-false,
  ltb-eq-false, ==_same, ltb-false_of_le, length, length-append, ok, ◌>>=◌, >>=-eq-ok,
  throw_if-eq-ok, ok-injective, >>=_regroup, pass, throw_if-pass,
}
use agent_harness_os.Workflow.Types.{
  Projection, Event, worker_stage_eq, stage_eq, status_eq, decision_eq,
}
use agent_harness_os.Domain.{worker_mode_eq, capability_eq, run_status_eq}
use agent_harness_os.Workflow.Projection.{project_workflow_event}
use agent_harness_os.Workflow.Journal.{
  Runtime, EventFile, ReadState, ReadResult, max_events_per_workflow, max_timeline_bytes,
  initial_state, parse_event, read_event, read_events, finish_reading, read_timeline,
}

module _ (rt : Runtime) (workflow_id first_sha256 : String) where
  -- What it takes for a file to be read.
  pub record EventRead (sequence : ℕ) (st : ReadState) (file : EventFile) (st' : ReadState)
      : Type 0 where
    pub event : Event
    pub projected : Projection
    pub in_sequence : file.file_sequence ≡ sequence
    pub within : st.bytes_read + len file.contents ≤ max_timeline_bytes
    pub digest : rt.sha256 file.contents ≡ file.file_sha256
    pub parsed : parse_event rt workflow_id file.contents sequence ≡ ok event
    pub redacted : rt.contains_credential_material event ≡ false
    pub chained : event.previous_event_sha256 ≡ st.previous_event_sha256
    pub anchored : (sequence == 1 && not (file.file_sha256 == first_sha256)) ≡ false
    pub projects :
        project_workflow_event rt.dates st.projection event file.file_sha256 false ≡ ok projected
    pub after : st' ≡ record {
      projection = some projected;
      previous_event_sha256 = some file.file_sha256;
      bytes_read = st.bytes_read + len file.contents;
      events = st.events ++ event ∷ [];
    }

  pub read_event-EventRead :
      (sequence : ℕ) (st : ReadState) (file : EventFile) {st' : ReadState}
      → read_event rt workflow_id first_sha256 sequence st file ≡ ok st'
      → EventRead sequence st file st'
  unfolding read_event
  read_event-EventRead sequence st file h =
      let (_, c1, h1) = >>=-eq-ok _ _ h in
      let (_, c2, h2) = >>=-eq-ok _ _ h1 in
      let (_, c3, h3) = >>=-eq-ok _ _ h2 in
      let (event, c4, h4) = >>=-eq-ok _ _ h3 in
      let (_, c5, h5) = >>=-eq-ok _ _ h4 in
      let (_, c6, h6) = >>=-eq-ok _ _ h5 in
      let (_, c7, h7) = >>=-eq-ok _ _ h6 in
      let (p, c8, h8) = >>=-eq-ok _ _ h7 in
      record {
        event = event;
        projected = p;
        in_sequence = ==_sound _ _ (not-eq-false (throw_if-eq-ok _ _ c1));
        within = ltb-eq-false (throw_if-eq-ok _ _ c2);
        digest = ==_sound _ _ (not-eq-false (throw_if-eq-ok _ _ c3));
        parsed = c4;
        redacted = throw_if-eq-ok _ _ c5;
        chained = ==_sound _ _ (not-eq-false (throw_if-eq-ok _ _ c6));
        anchored = throw_if-eq-ok _ _ c7;
        projects = c8;
        after = sym (ok-injective h8);
      }

  pub EventRead-read_event :
      (sequence : ℕ) (st : ReadState) (file : EventFile) {st' : ReadState}
      → EventRead sequence st file st'
      → read_event rt workflow_id first_sha256 sequence st file ≡ ok st'
  unfolding read_event
  EventRead-read_event sequence st file r =
      throw_if-pass _ _ (==_same r.in_sequence)
      ∙ throw_if-pass _ _ (ltb-false_of_le r.within)
      ∙ throw_if-pass _ _ (==_same r.digest)
      ∙ pass _ r.parsed
      ∙ throw_if-pass _ _ r.redacted
      ∙ throw_if-pass _ _ (==_same r.chained)
      ∙ throw_if-pass _ _ r.anchored
      ∙ pass _ r.projects
      ∙ ap ok (sym r.after)

  -- What one file keeps, all files keep.
  pub read_events-induction {ℓ} :
      (P : ReadState → Type ℓ)
      → ((sequence : ℕ) (st st' : ReadState) (file : EventFile)
          → EventRead sequence st file st'
          → P st
          → P st')
      → (sequence : ℕ) (st : ReadState) (files : List EventFile) {st' : ReadState} → P st
      → read_events rt workflow_id first_sha256 sequence st files ≡ ok st'
      → P st'
  unfolding read_events
  read_events-induction P keep sequence st [] h e = subst P (ok-injective e) h
  read_events-induction P keep sequence st (file ∷ files) h e =
      let (st₁, c, r) = >>=-eq-ok _ _ e in
      read_events-induction P keep (suc sequence) st₁ files
        (keep sequence st st₁ file (read_event-EventRead sequence st file c) h) r

  pub read_events_one :
      (sequence : ℕ) (st : ReadState) (file : EventFile) {st' : ReadState}
      → read_event rt workflow_id first_sha256 sequence st file ≡ ok st'
      → read_events rt workflow_id first_sha256 sequence st (file ∷ []) ≡ ok st'
  unfolding read_events
  read_events_one sequence st file h = pass _ h

  -- Reading in two parts.
  pub read_events-append :
      (sequence : ℕ) (st : ReadState) (xs ys : List EventFile) {n : ℕ}
      → n ≡ sequence + length xs
      → read_events rt workflow_id first_sha256 sequence st (xs ++ ys) ≡ (
          read_events rt workflow_id first_sha256 sequence st xs >>= λ st'.
          read_events rt workflow_id first_sha256 n st' ys)
  unfolding read_events
  read_events-append sequence st [] ys {n} e = let here : n ≡ sequence = omega arith in rw here
  read_events-append sequence st (file ∷ xs) ys e =
      >>=_regroup (read_event rt workflow_id first_sha256 sequence st file) _ _ _
        (λ st'. read_events-append (suc sequence) st' xs ys (omega arith))

  finish_reading-eq-ok :
      (st : ReadState) (p : Option Projection) (r : ReadResult)
      → st.projection ≡ p
      → finish_reading rt workflow_id st ≡ ok r
      → (p ≡ some r.result_projection)
        × (r.result_events ≡ st.events)
        × (r.result_bytes ≡ st.bytes_read)
  unfolding finish_reading
  finish_reading-eq-ok st p r e h = ground arith

  -- The run behind a timeline that was read: the loop's last state, whose projection it returns.
  pub record TimelineRead (files : List EventFile) (r : ReadResult) : Type 0 where
    pub last : ReadState
    pub enough : length files ≤ max_events_per_workflow
    pub some_files : nat_beq (length files) 0 ≡ false
    pub loop : read_events rt workflow_id first_sha256 1 initial_state files ≡ ok last
    pub projected : last.projection ≡ some r.result_projection
    pub all_events : r.result_events ≡ last.events
    pub all_bytes : r.result_bytes ≡ last.bytes_read

  pub read_timeline-TimelineRead :
      (files : List EventFile) (r : ReadResult)
      → read_timeline rt workflow_id first_sha256 files ≡ ok r
      → TimelineRead files r
  unfolding read_timeline
  read_timeline-TimelineRead files r h =
      let (_, c1, h1) = >>=-eq-ok _ _ h in
      let (_, c2, h2) = >>=-eq-ok _ _ h1 in
      let (st, c3, h3) = >>=-eq-ok _ _ h2 in
      let (projected, events, bytes) = finish_reading-eq-ok st st.projection r refl h3 in
      record {
        last = st;
        enough = ltb-eq-false (throw_if-eq-ok _ _ c2);
        some_files = throw_if-eq-ok _ _ c1;
        loop = c3;
        projected = projected;
        all_events = events;
        all_bytes = bytes;
      }

  pub TimelineRead-read_timeline :
      (files : List EventFile) (r : ReadResult)
      → TimelineRead files r
      → read_timeline rt workflow_id first_sha256 files ≡ ok r
  unfolding read_timeline finish_reading
  TimelineRead-read_timeline files r t =
      throw_if-pass _ _ t.some_files
      ∙ throw_if-pass _ _ (ltb-false_of_le t.enough)
      ∙ pass _ t.loop
      ∙ rw (t.projected, finish_reading)
          (ap ok (λ i. record {
            result_projection = r.result_projection;
            result_events = sym t.all_events i;
            result_bytes = sym t.all_bytes i;
          }))

  -- As many events are read as there are files.
  pub read_events-length :
      (sequence : ℕ) (st : ReadState) (files : List EventFile) {st' : ReadState}
      → read_events rt workflow_id first_sha256 sequence st files ≡ ok st'
      → length st'.events ≡ length st.events + length files
  unfolding read_events
  read_events-length sequence st [] h = let e = ok-injective h in rw (← e) (omega arith)
  read_events-length sequence st (file ∷ files) {st'} h =
      let (st₁, c, r) = >>=-eq-ok _ _ h in
      let read = read_event-EventRead sequence st file c in
      let grown : length st₁.events ≡ length st.events + 1 =
        rw read.after (omega (arith, length-append st.events (read.event ∷ []))) in
      omega (arith, read_events-length (suc sequence) st₁ files r)
