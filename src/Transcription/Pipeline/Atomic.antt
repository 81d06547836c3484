-- ===== src/Transcription/Pipeline/Atomic.antt =====
-- What a run of executeJob that fails leaves behind.

use memberclass_backend_gola.Common.{
  String, ◌≡◌, refl, ◌∙◌, Bool, true, List, ℕ, Option, false, GoString, ◌∷◌, Bool-cases, some, suc,
  [], none, inl, zero, inr, drop, ◌⊎◌, str, ap, sym,
}
use memberclass_backend_gola.Transcription.Pipeline.{
  Outcome, Outside, World, after_outcome, ◌>>=◌, pure, lift, ready, wrong, unless, stop, Tables,
  Chunk, called, Heard, JobPayload, JobResult,
}
use memberclass_backend_gola.Transcription.Pipeline.Execute.{
  Run, embed_chunks, statement, opened, transcribe_parts, ask, is_down, listen, checked_payload,
  preflight, upsert_video, copy_chunks, in_transaction, execute_job, complete_job, write_tables,
  insert_token_usage, delete_chunks_by_video, delete_transcripts_by_video, rolled_back,
  insert_transcript, complete_video, publish,
}

wrong_eq :
    {A W : Type 0} {a b : GoString} {v w : W}
    → ◌≡◌ {A = Outcome A × W} (wrong a, v) (wrong b, w)
    → a ≡ b
wrong_eq {A} {W} {a} {b} h =
    let same : ◌≡◌ {A = Outcome A} (wrong a) (wrong b) = ap (λ r. r.0) h in cc (same)

pub ready_not_wrong :
    {A W : Type 0} {a : A} {b : GoString} {v w : W}
    → ◌≡◌ {A = Outcome A × W} (ready a, v) (wrong b, w)
    → ⊥
ready_not_wrong {A} {W} {a} {b} h =
    let same : ◌≡◌ {A = Outcome A} (ready a) (wrong b) = ap (λ r. r.0) h in cc (same)

module _ (o : Outside) where
  open o use {Time, Vector}

  -- The jobs and the marks on lessons are what they were, and so are the tables, unless `open`.
  abbrev Same : Bool → World Time Vector → World Time Vector → Type 0
  Same tables_too v w =
      (tables_too ≡ true → w.tables ≡ v.tables)
      × (w.jobs ≡ v.jobs)
      × (w.transcribed ≡ v.transcribed)

  pub Spares : {A : Type 0} → Bool → Run o A → Type 0
  Spares tables_too m = (w : World Time Vector) → Same tables_too w (m w).1

  Spares-bind :
      {A B : Type 0} (t : Bool) (m : Run o A) (f : A → Run o B)
      → Spares t m
      → ((a : A) → Spares t (f a))
      → Spares t (m >>= f)
  unfolding Spares ◌>>=◌
  Spares-bind {A} {B} t m f spares_m spares_f w = after (m w) (spares_m w)
    where
      after : (r : Outcome A × World Time Vector) → Same t w r.1 → Same t w (after_outcome r f).1
      after (ready a, v) same =
          let next = spares_f a v in
          ((λ is. next.0 is ∙ same.0 is), next.1 ∙ same.1, next.2 ∙ same.2)
      after (wrong e, v) same = same

  Spares-pure : {A : Type 0} (t : Bool) (a : A) → Spares t (pure a)
  unfolding Spares pure
  Spares-pure t a w = ((λ is. refl), refl, refl)

  Spares-lift : {A : Type 0} (t : Bool) (text : String) (r : Outcome A) → Spares t (lift text r)
  unfolding Spares lift
  Spares-lift t text (ready a) w = ((λ is. refl), refl, refl)
  Spares-lift t text (wrong e) w = ((λ is. refl), refl, refl)

  Spares-ask :
      {A : Type 0} (t : Bool) (text : String) (request : ℕ → Outcome A)
      → Spares t (ask o text request)
  unfolding Spares ask
  Spares-ask t text request w =
      let here : Same t w (lift text (request w.calls) (called w)).1 =
        unfold Spares in Spares-lift t text (request w.calls) (called w) in
      here

  Spares-unless : (t : Bool) (b : Bool) (text : String) → Spares t (unless b text)
  unfolding Spares unless stop pure
  Spares-unless t true text w = ((λ is. refl), refl, refl)
  Spares-unless t false text w = ((λ is. refl), refl, refl)

  Spares-opened : (t : Bool) (r : Option GoString) → Spares t (opened o r)
  unfolding Spares opened
  Spares-opened t none w = ((λ is. refl), refl, refl)
  Spares-opened t (some e) w = ((λ is. refl), refl, refl)

  -- A statement writes the tables only.
  Spares-statement :
      (text : String) (write : Tables Time Vector → Tables Time Vector)
      → Spares false (statement o text write)
  unfolding Spares statement
  Spares-statement text write w = elim (Bool-cases (is_down o w)) [
    | inl down ↦ rw down ((λ is. cc), refl, refl)
    | inr up ↦ rw up ((λ is. cc), refl, refl)
  ]

  ruleset spares = (
    Spares-bind, Spares-pure, Spares-lift, Spares-ask, Spares-unless, Spares-opened,
    Spares-statement,
  )

  Spares-transcribe_parts :
      (parts : List GoString) (h : Heard Time) → Spares true (transcribe_parts o parts h)
  unfolding transcribe_parts
  Spares-transcribe_parts [] h = search (spares)
  Spares-transcribe_parts (part ∷ parts) h = search (spares, Spares-transcribe_parts parts)

  pub Spares-embed_chunks :
      (fuel : ℕ) (chunks : List (Chunk Time)) → Spares true (embed_chunks o fuel chunks)
  unfolding embed_chunks
  Spares-embed_chunks fuel [] = search (spares)
  Spares-embed_chunks zero (c ∷ cs) = search (spares)
  Spares-embed_chunks (suc fuel) (c ∷ cs) = search (spares, Spares-embed_chunks fuel)

  Spares-preflight : Spares true (preflight o)
  unfolding Spares preflight
  Spares-preflight w = preflight_on o.preflight
    where
      preflight_on :
          (r : Option GoString)
          → Same true w
              (let r : Outcome (Unit {0}) × World Time Vector = elim r [
                | none ↦ (ready tt, w)
                | some e ↦ (wrong e, w)
              ] in
                r).1
      preflight_on none = ((λ is. refl), refl, refl)
      preflight_on (some e) = ((λ is. refl), refl, refl)

  Spares-checked_payload : (raw : GoString) → Spares true (checked_payload o raw)
  unfolding checked_payload
  Spares-checked_payload raw = search (spares)

  Spares-listen : (tenant_id : GoString) (p : JobPayload) → Spares true (listen o tenant_id p)
  unfolding listen
  Spares-listen tenant_id p = search (spares, Spares-transcribe_parts) depth 20

  Spares-upsert_video :
      (p : JobPayload) (tenant_id : GoString) (duration : Time)
      → Spares false (upsert_video o p tenant_id duration)
  unfolding Spares upsert_video
  Spares-upsert_video p tenant_id duration w = elim (Bool-cases (is_down o w)) [
    | inl down ↦ rw down ((λ is. cc), refl, refl)
    | inr up ↦ rw up ((λ is. cc), refl, refl)
  ]

  Spares-at :
      {A : Type 0} (t : Bool) (f : World Time Vector → Run o A)
      → ((w : World Time Vector) → Spares t (f w))
      → Spares t (λ w. f w w)
  unfolding Spares
  Spares-at t f h w = h w w

  Spares-copy_chunks :
      (p : JobPayload) (tenant_id video_id transcript_id : GoString) (cs : List (Chunk Time))
      (vs : List Vector)
      → Spares false (copy_chunks o p tenant_id video_id transcript_id cs vs)
  unfolding copy_chunks
  Spares-copy_chunks p tenant_id video_id transcript_id [] vs = search (spares)
  Spares-copy_chunks p tenant_id video_id transcript_id (c ∷ cs) vs =
      Spares-bind _ _ _ (Spares-at false _ (λ w. Spares-statement _ _))
        (λ a. Spares-copy_chunks p tenant_id video_id transcript_id cs (drop 1 vs))

  Spares-insert_token_usage :
      (p : JobPayload) (tenant_id video_id transcript_id : GoString) (cost : ℕ)
      → Spares false (insert_token_usage o p tenant_id video_id transcript_id cost)
  unfolding insert_token_usage
  Spares-insert_token_usage p tenant_id video_id transcript_id cost =
      Spares-at false _ (λ w. Spares-statement _ _)

  Spares-now :
      {A : Type 0} (t : Bool) (f : World Time Vector → Outcome A) → Spares t (λ w. (f w, w))
  unfolding Spares
  Spares-now t f w = ((λ is. refl), refl, refl)

  Spares-write_tables :
      (p : JobPayload) (tenant_id : GoString) (duration : Time) (h : Heard Time)
      (chunks : List (Chunk Time)) (vectors : List Vector) (cost : ℕ)
      → Spares false (write_tables o p tenant_id duration h chunks vectors cost)
  unfolding write_tables delete_chunks_by_video delete_transcripts_by_video insert_transcript
      complete_video
  Spares-write_tables p tenant_id duration h chunks vectors cost =
      search
        (spares, Spares-upsert_video, Spares-copy_chunks, Spares-insert_token_usage, Spares-now)
        depth 40

  -- What an error means: nothing was written, or only the job's own row was not.
  abbrev pub NothingWritten :
      {A : Type 0} → World Time Vector → Outcome A × World Time Vector → Type 0
  NothingWritten w (ready a, v) = Unit {0}
  NothingWritten w (wrong e, v) =
      ((v.tables ≡ w.tables) × (v.jobs ≡ w.jobs) × (v.transcribed ≡ w.transcribed))
      ⊎ (e ≡ str "mark job completed")

  Closed : {A : Type 0} → Run o A → Type 0
  Closed m = (w : World Time Vector) → NothingWritten w (m w)

  Closed-bind :
      {A B : Type 0} (m : Run o A) (f : A → Run o B)
      → Spares true m
      → ((a : A) → Closed (f a))
      → Closed (m >>= f)
  unfolding Closed Spares ◌>>=◌
  Closed-bind {A} {B} m f spares closed w = after (m w) (spares w)
    where
      after :
          (r : Outcome A × World Time Vector)
          → Same true w r.1
          → NothingWritten w (after_outcome r f)
      after (wrong e, v) same = inl (same.0 refl, same.1, same.2)
      after (ready a, v) same = later (f a v) (closed a v)
        where
          later : (r : Outcome B × World Time Vector) → NothingWritten v r → NothingWritten w r
          later (ready b, u) h = tt
          later (wrong e, u) (inl h) = inl (h.0 ∙ same.0 refl, h.1 ∙ same.1, h.2 ∙ same.2)
          later (wrong e, u) (inr h) = inr h

  Closed-in_transaction :
      {A B : Type 0} (m : Run o A) (f : A → Run o B)
      → Spares false m
      → ((a : A) (w v : World Time Vector) (e : GoString)
          → f a w ≡ (wrong e, v)
          → e ≡ str "mark job completed")
      → Closed (in_transaction o m >>= f)
  unfolding Closed Spares ◌>>=◌ in_transaction
  Closed-in_transaction {A} {B} m f spares last w = after (m w) (spares w)
    where
      after :
          (r : Outcome A × World Time Vector)
          → Same false w r.1
          → NothingWritten w (after_outcome (rolled_back o w.tables r) f)
      after (wrong e, v) same = inl (refl, same.1, same.2)
      after (ready a, v) same = later (f a v) refl
        where
          later : (r : Outcome B × World Time Vector) → f a v ≡ r → NothingWritten w r
          later (ready b, u) is_r = tt
          later (wrong e, u) is_r = inr (last a v u e is_r)

  complete_job-error :
      (job_id : GoString) (result : JobResult Time) (w v : World Time Vector) (e : GoString)
      → complete_job o job_id result w ≡ (wrong e, v)
      → e ≡ str "mark job completed"
  unfolding complete_job
  complete_job-error job_id result w v e h = elim (Bool-cases (is_down o w)) [
    | inl down ↦ sym (wrong_eq (rw down at h))
    | inr up ↦ absurd (ready_not_wrong (rw up at h))
  ]

  publish-Closed :
      (job_id tenant_id : GoString) (p : JobPayload) (duration : Time) (h : Heard Time)
      → Closed (publish o job_id tenant_id p duration h)
  unfolding publish
  publish-Closed job_id tenant_id p duration h =
      Closed-bind _ _ (Spares-unless true _ _) (λ some_chunks.
        Closed-bind _ _ (Spares-embed_chunks _ _) (λ embedded.
          Closed-in_transaction _ _ (Spares-write_tables p tenant_id duration h _ embedded.0 _)
            (λ ids w v e. complete_job-error job_id _ _ v e)))

  -- However a run of executeJob fails, it has written nothing: the tables, the jobs and the marks on
  -- the lessons are those before the run. The one exception is an error of the statement that marks
  -- the job completed: then the transcript may stand while the job fails.
  pub execute_job-NothingWritten :
      (job_id tenant_id raw : GoString) (w : World Time Vector)
      → NothingWritten w (execute_job o job_id tenant_id raw w)
  unfolding execute_job Closed
  execute_job-NothingWritten job_id tenant_id raw w = closed w
    where
      closed : Closed (execute_job o job_id tenant_id raw)
      closed = Closed-bind _ _ Spares-preflight (λ able.
          Closed-bind _ _ (Spares-checked_payload raw) (λ p.
            Closed-bind _ _ (Spares-listen tenant_id p)
              (λ heard. publish-Closed job_id tenant_id p heard.0 heard.1)))
