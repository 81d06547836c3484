-- ===== src/Transcription/Pipeline/Execute.antt =====
-- The steps of executeJob, pipeline.go, in their order.
use memberclass_backend_gola.Common.Int.{pos}
use memberclass_backend_gola.Transcription.Chunker.{Segment, Chunk, split_into_chunks, blank}
use memberclass_backend_gola.Transcription.Jobs.{mark_job_completed}
use memberclass_backend_gola.Common.{
  ℕ, zero, suc, ◌+◌, String, Bool, not, ◌||◌, Option, none, some, List, [], ◌∷◌, ◌++◌, map, ◌==◌,
  if◌then◌else◌, length, take, drop, filter_by, GoString, str, ◌===◌, is_empty, trim_space,
}
use memberclass_backend_gola.Transcription.Pipeline.{
  JobPayload, WhisperResponse, Video, ChunkRow, Tables, JobResult, Outcome, Outside, World, Heard,
  embed_batch_size, nullable_string, P, ◌>>=◌, pure, lift, unless, called, trim_slashes,
  guid_of_url, credentials, find_video, update_video, upserted, generating_embeddings, completed,
  ready, wrong,
}

module _ (o : Outside) where
  open o use {Time, Vector}

  abbrev pub Run : Type 0 → Type 0
  Run A = P Time Vector A

  unfoldable pub is_down : World Time Vector → Bool
  is_down w = o.down w.calls

  -- A call of something outside, by the number of calls so far.
  unfoldable pub ask : {A : Type 0} → String → (ℕ → Outcome A) → Run A
  ask text request w = lift text (request w.calls) (called w)

  -- A statement on the tables.
  unfoldable pub statement : String → (Tables Time Vector → Tables Time Vector) → Run (Unit {0})
  statement text write w =
      if is_down w
      then (wrong (str text), called w)
      else (ready tt, called (record w { tables = write w.tables }))

  -- BeginTx with the deferred Rollback: on an error the tables are what they were.
  abbrev pub rolled_back :
      {A : Type 0}
      → Tables Time Vector
      → Outcome A × World Time Vector
      → Outcome A × World Time Vector
  rolled_back before (ready a, w) = (ready a, w)
  rolled_back before (wrong e, w) = (wrong e, record w { tables = before })

  unfoldable pub in_transaction : {A : Type 0} → Run A → Run A
  in_transaction m w = rolled_back w.tables (m w)

  unfoldable pub checked_payload : GoString → Run JobPayload
  checked_payload raw = do
    p ← lift "decode payload: " (o.decode_payload raw)
    filled ←
        unless (not (is_empty p.lesson_id || is_empty p.video_url))
          "payload missing lessonId/videoUrl"
    pure p

  unfoldable pub preflight : Run (Unit {0})
  preflight w = elim o.preflight [ none ↦ (ready tt, w) | some e ↦ (wrong e, w) ]

  abbrev pub shifted : Time → Segment Time → Segment Time
  shifted elapsed seg = record seg {
    start = o.add_time seg.start elapsed;
    end = o.add_time seg.end elapsed;
  }

  abbrev pub hear : Heard Time → WhisperResponse Time → Heard Time
  hear h r = record {
    segments = h.segments ++ map (shifted h.elapsed) r.segments;
    text = h.text ++ (trim_space r.text ++ blank);
    elapsed = o.add_time h.elapsed r.duration;
    cost = h.cost + o.whisper_cost_cents r.duration;
  }

  unfoldable pub opened : Option GoString → Run (Unit {0})
  opened none w = (ready tt, w)
  opened (some e) w = (wrong (str "open part: " ++ e), w)

  unfoldable pub transcribe_parts : List GoString → Heard Time → Run (Heard Time)
  transcribe_parts [] h = pure h
  transcribe_parts (part ∷ parts) h = do
    file ← opened (o.open_part part)
    response ← ask "whisper part: " (λ n. o.transcribe_audio n part)
    transcribe_parts parts (hear h response)

  -- The loop over the batches, with their number as fuel: the vectors and the cost.
  unfoldable pub embed_chunks : ℕ → List (Chunk Time) → Run (List Vector × ℕ)
  embed_chunks fuel [] = pure ([], 0)
  embed_chunks zero (c ∷ cs) = pure ([], 0)
  embed_chunks (suc fuel) (c ∷ cs) = do
    let batch = take embed_batch_size (c ∷ cs)
    embedded ← ask "embed batch: " (λ n. o.embed_batch n (map (λ (x : Chunk Time). x.text) batch))
    complete ←
        unless (length embedded.0 == length batch) "embed batch: returned another number of vectors"
    rest ← embed_chunks fuel (drop embed_batch_size (c ∷ cs))
    pure (embedded.0 ++ rest.0, o.embed_cost_cents embedded.1 + rest.1)

  -- What the transaction writes.
  abbrev pub video_of : JobPayload → GoString → Time → GoString → Video Time
  video_of p tenant_id duration id = record {
    id = id;
    tenant_id = tenant_id;
    course_id = p.course_id;
    lesson_id = p.lesson_id;
    title = p.title;
    source_url = p.video_url;
    status = generating_embeddings;
    duration = duration;
    error = none;
  }

  unfoldable pub upsert_video : JobPayload → GoString → Time → Run GoString
  upsert_video p tenant_id duration w =
      let video = video_of p tenant_id duration (o.uuid w.calls) in
      let (videos, id) =
        upserted (find_video tenant_id p.video_url w.tables.videos) video w.tables.videos in
      if is_down w
      then (wrong (str "upsert video"), called w)
      else (ready id, called (record w { tables = record w.tables { videos = videos } }))

  unfoldable pub delete_chunks_by_video : GoString → Run (Unit {0})
  delete_chunks_by_video video_id =
      statement "delete prior chunks"
        (λ t. record t { chunks = filter_by (λ c. not (c.video_id === video_id)) t.chunks })

  unfoldable pub delete_transcripts_by_video : GoString → Run (Unit {0})
  delete_transcripts_by_video video_id =
      statement "delete prior transcripts" (λ t. record t {
        transcripts = filter_by (λ c. not (c.video_id === video_id)) t.transcripts;
      })

  unfoldable pub insert_transcript :
      JobPayload → GoString → GoString → GoString → Heard Time → Run (Unit {0})
  insert_transcript p tenant_id video_id id h = statement "insert transcript" (λ t. record t {
    transcripts =
        t.transcripts
        ++ record {
          id = id;
          video_id = video_id;
          tenant_id = tenant_id;
          lesson_id = p.lesson_id;
          text = trim_space h.text;
          segments = h.segments;
          processing_time = h.elapsed;
        }
          ∷ [];
  })

  abbrev pub chunk_row :
      JobPayload
      → GoString
      → GoString
      → GoString
      → GoString
      → Chunk Time
      → Vector
      → ChunkRow Time Vector
  chunk_row p tenant_id video_id transcript_id id c v = record {
    id = id;
    video_id = video_id;
    transcript_id = transcript_id;
    tenant_id = tenant_id;
    course_id = nullable_string p.course_id;
    lesson_id = p.lesson_id;
    text = c.text;
    order = c.order;
    start_time = c.start_time;
    end_time = c.end_time;
    embedding = v;
  }

  abbrev pub append_chunk : ChunkRow Time Vector → Tables Time Vector → Tables Time Vector
  append_chunk row t = record t { chunks = t.chunks ++ row ∷ [] }

  -- `embeddings[i]`; a chunk with no vector is written with none.
  abbrev pub first_vector : List Vector → Vector
  first_vector [] = o.no_vector
  first_vector (v ∷ vs) = v

  unfoldable pub copy_chunks :
      JobPayload → GoString → GoString → GoString → List (Chunk Time) → List Vector → Run (Unit {0})
  copy_chunks p tenant_id video_id transcript_id [] vs = pure tt
  copy_chunks p tenant_id video_id transcript_id (c ∷ cs) vs = do
    copied ← λ w.
        statement "copy chunk"
          (append_chunk
            (chunk_row p tenant_id video_id transcript_id (o.uuid w.calls) c (first_vector vs)))
          w
    copy_chunks p tenant_id video_id transcript_id cs (drop 1 vs)

  -- sqlUpdateVideoStatus with COMPLETED and no error.
  unfoldable pub complete_video : GoString → Run (Unit {0})
  complete_video video_id = statement "mark video completed" (λ t. record t {
    videos = update_video video_id (λ v. record v { status = completed; error = none }) t.videos;
  })

  unfoldable pub insert_token_usage :
      JobPayload → GoString → GoString → GoString → ℕ → Run (Unit {0})
  insert_token_usage p tenant_id video_id transcript_id cost w =
      statement "insert token_usage"
        (λ t. record t {
          token_usage =
              t.token_usage
              ++ record {
                id = o.uuid w.calls;
                tenant_id = tenant_id;
                course_id = nullable_string p.course_id;
                video_id = video_id;
                transcript_id = transcript_id;
                output_cost_cents = cost;
                total_cost_cents = cost;
              }
                ∷ [];
        })
        w

  -- Section 6: the ids of the video and the transcript.
  unfoldable pub write_tables :
      JobPayload
      → GoString
      → Time
      → Heard Time
      → List (Chunk Time)
      → List Vector
      → ℕ
      → Run (GoString × GoString)
  write_tables p tenant_id duration h chunks vectors cost = do
    begun ← statement "begin tx" (λ t. t)
    video_id ← upsert_video p tenant_id duration
    no_chunks ← delete_chunks_by_video video_id
    no_transcripts ← delete_transcripts_by_video video_id
    transcript_id ← λ w. (ready (o.uuid w.calls), w)
    inserted ← insert_transcript p tenant_id video_id transcript_id h
    prepared ← statement "prepare copyin" (λ t. t)
    copied ← copy_chunks p tenant_id video_id transcript_id chunks vectors
    flushed ← statement "flush copyin" (λ t. t)
    closed ← statement "close copyin" (λ t. t)
    finished ← complete_video video_id
    billed ← insert_token_usage p tenant_id video_id transcript_id cost
    committed ← statement "commit transcription tx" (λ t. t)
    pure (video_id, transcript_id)

  -- Section 7: an error is only logged.
  unfoldable pub mark_lesson_transcribed : GoString → World Time Vector → World Time Vector
  mark_lesson_transcribed lesson_id w =
      if is_down w then called w else called (record w { transcribed = lesson_id ∷ w.transcribed })

  -- Section 8.
  unfoldable pub complete_job : GoString → JobResult Time → Run (Unit {0})
  complete_job job_id result w =
      if is_down w then (wrong (str "mark job completed"), called w) else (
        ready tt,
        called (record w {
          jobs = mark_job_completed job_id (o.render_result result) (o.now w.calls) w.jobs;
        }),
      )

  -- Sections 5 to 8, from what was heard.
  unfoldable pub publish : GoString → GoString → JobPayload → Time → Heard Time → Run (Unit {0})
  publish job_id tenant_id p duration h = do
    let chunks = split_into_chunks o.zero_time h.segments (pos 500) (pos 50)
    some_chunks ← unless (not (length chunks == 0)) "chunker produced 0 chunks"
    embedded ← embed_chunks (length chunks) chunks
    let cost = h.cost + embedded.1
    ids ← in_transaction (write_tables p tenant_id duration h chunks embedded.0 cost)
    λ w.
        complete_job job_id
          (record {
            video_id = ids.0;
            transcript_id = ids.1;
            chunks_count = length chunks;
            duration_secs = h.elapsed;
            cost_cents = cost;
          })
          (mark_lesson_transcribed p.lesson_id w)

  -- Sections 1 to 4. A text that was heard is never empty: each part adds a blank.
  unfoldable pub listen : GoString → JobPayload → Run (Time × Heard Time)
  unfolding trim_slashes transcribe_parts
  listen tenant_id p = do
    tenant ← ask "select tenant: " (λ n. o.select_tenant n tenant_id)
    keys ← λ w. lift "" (credentials tenant) w
    video ← lift "parse media URL: " (guid_of_url (o.parse_url p.video_url))
    work_dir ← lift "mktemp: " o.temp_dir
    audio ← ask "resolve audio: " (λ n. o.resolve_audio n video.0 video.1 keys.1)
    some_parts ← unless (not (length audio.0 == 0)) "no audio parts produced"
    heard ←
        transcribe_parts audio.0
          (record { segments = []; text = []; elapsed = o.zero_time; cost = 0 })
    not_silent ← unless (not (length heard.text == 0)) "whisper returned empty transcript"
    pure (if o.is_zero_time audio.1 then heard.elapsed else audio.1, heard)

  unfoldable pub execute_job : GoString → GoString → GoString → Run (Unit {0})
  unfolding checked_payload listen publish
  execute_job job_id tenant_id raw = do
    able ← preflight
    p ← checked_payload raw
    heard ← listen tenant_id p
    publish job_id tenant_id p heard.0 heard.1
