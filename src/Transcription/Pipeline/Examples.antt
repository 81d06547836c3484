-- ===== src/Transcription/Pipeline/Examples.antt =====
-- Runs of executeJob.
use memberclass_backend_gola.Common.Int.{pos}
use memberclass_backend_gola.Transcription.Chunker.{Segment, split_into_chunks}
use memberclass_backend_gola.Common.{
  ℕ, ◌+◌, ◌≡◌, refl, true, false, none, some, List, [], ◌∷◌, map, ◌==◌, length, GoString, str,
}
use memberclass_backend_gola.Transcription.Pipeline.{
  completed, JobPayload, Outcome, Outside, World, Heard, ready,
}
use memberclass_backend_gola.Transcription.Pipeline.{◌>>=◌, unless, stop, pure, lift}
use memberclass_backend_gola.Transcription.Pipeline.Execute.{
  ask, embed_chunks, in_transaction, write_tables, statement, is_down, upsert_video,
  delete_chunks_by_video, delete_transcripts_by_video, insert_transcript, copy_chunks,
  complete_video, insert_token_usage, mark_lesson_transcribed, complete_job,
}
use memberclass_backend_gola.Transcription.Chunker.{approx_tokens}
use memberclass_backend_gola.Common.{trim_space, ◌===◌}
use memberclass_backend_gola.Transcription.Jobs.{mark_job_completed}
use memberclass_backend_gola.Transcription.Pipeline.Execute.{execute_job, publish}
use memberclass_backend_gola.Transcription.Pipeline.Atomic.{
  NothingWritten, execute_job-NothingWritten,
}
use memberclass_backend_gola.Transcription.Pipeline.Refines.{Published, publish-Published, entry_of}

abbrev one_segment : Segment ℕ
one_segment = record { start = 0; end = 7; text = str "bom dia" }

abbrev aula : JobPayload
aula = record {
  lesson_id = str "l1";
  tenant_id = str "t1";
  video_url = str "https://iframe.mediadelivery.net/embed/7/abc";
  course_id = [];
  title = str "Aula";
}

-- Times are seconds, and the vector of a text is its length.
abbrev running : Outside
running = record {
  Time = ℕ;
  Vector = ℕ;
  no_vector = 0;
  zero_time = 0;
  add_time = λ a b. a + b;
  is_zero_time = λ t. t == 0;
  down = λ n. false;
  now = λ n. n;
  uuid = λ n. n ∷ [];
  preflight = none;
  decode_payload = λ raw. ready aula;
  select_tenant = λ n id. ready (
      some (record {
        ai_enabled = some true;
        bunny_library_id = some (str "7");
        bunny_library_api_key = some (str "key");
      }));
  parse_url = λ url. some (str "iframe.mediadelivery.net", str "/embed/7/abc");
  temp_dir = ready tt;
  resolve_audio = λ n library guid key. ready (str "audio.mp3" ∷ [], 7);
  open_part = λ part. none;
  transcribe_audio =
      λ n part. ready (record { text = str "bom dia"; duration = 7; segments = one_segment ∷ [] });
  embed_batch = λ n texts. ready (map (λ (t : GoString). length t) texts, 1);
  whisper_cost_cents = λ t. 1;
  embed_cost_cents = λ n. 1;
  render_result = λ r. r.video_id;
}

-- The same, with a database that is down when the transaction commits.
abbrev failing : Outside
failing = record running { down = λ n. n == 13 }

abbrev nothing_yet : World ℕ ℕ
nothing_yet = record {
  tables = record { videos = []; transcripts = []; chunks = []; token_usage = [] };
  jobs = [];
  transcribed = [];
  calls = 0;
}

execute_job-NothingWritten_example :
    NothingWritten failing nothing_yet
      (execute_job failing (str "j1") (str "t1") (str "{}") nothing_yet)
execute_job-NothingWritten_example =
    execute_job-NothingWritten failing (str "j1") (str "t1") (str "{}") nothing_yet

abbrev heard_once : Heard ℕ
heard_once = record { segments = one_segment ∷ []; text = str "bom dia "; elapsed = 7; cost = 1 }

-- The video was transcribed before: it has a row and a chunk.
abbrev transcribed_before : World ℕ ℕ
transcribed_before = record nothing_yet {
  tables = record {
    videos =
        record {
          id = str "v";
          tenant_id = str "t1";
          course_id = [];
          lesson_id = str "l1";
          title = str "Aula";
          source_url = str "https://iframe.mediadelivery.net/embed/7/abc";
          status = completed;
          duration = 7;
          error = none;
        }
        ∷ [];
    transcripts = [];
    chunks =
        record {
          id = str "c";
          video_id = str "v";
          transcript_id = str "x";
          tenant_id = str "t1";
          course_id = none;
          lesson_id = str "l1";
          text = str "velho";
          order = 0;
          start_time = 0;
          end_time = 7;
          embedding = 5;
        }
        ∷ [];
    token_usage = [];
  };
}

abbrev published_world : World ℕ ℕ
published_world = (publish running (str "j1") (str "t1") aula 7 heard_once transcribed_before).1

publishes :
    publish running (str "j1") (str "t1") aula 7 heard_once transcribed_before
    ≡ (ready tt, published_world)
unfolding publish split_into_chunks ◌>>=◌ unless stop pure ask lift embed_chunks in_transaction
    write_tables statement is_down upsert_video delete_chunks_by_video delete_transcripts_by_video
    insert_transcript copy_chunks complete_video insert_token_usage mark_lesson_transcribed
    complete_job approx_tokens ◌===◌ trim_space mark_job_completed
publishes = refl

by_length :
    (n : ℕ) (texts : List GoString) (r : List ℕ × ℕ)
    → ◌≡◌ {A = Outcome (List ℕ × ℕ)} (ready (map (λ (t : GoString). length t) texts, 1)) (ready r)
    → r.0 ≡ map (λ (t : GoString). length t) texts
by_length n texts r h = cc (h)

publish-Published_example :
    Published running
      (λ t. length t)
      by_length
      (str "t1")
      aula.video_url
      transcribed_before.tables
      (map
        (entry_of running (λ t. length t) by_length)
        (split_into_chunks 0 (one_segment ∷ []) (pos 500) (pos 50)))
      published_world.tables
publish-Published_example =
    publish-Published running (λ t. length t) by_length (str "j1") (str "t1") aula 7 heard_once
      transcribed_before published_world publishes
