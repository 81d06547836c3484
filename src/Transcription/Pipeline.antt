-- ===== src/Transcription/Pipeline.antt =====
-- executeJob of internal/features/workers/transcription/pipeline.go and the statements of sql.go that it
-- runs. The tables of the transcription database are lists of rows; times and vectors are only copied
-- and added. What other systems answer is the record Outside, asked with the number of calls so far;
-- its field `down` tells which statements the database does not answer.
pub mod Execute
pub mod Atomic
pub mod Videos
pub mod Publishing
pub mod Refines
mod Examples
use mathlib.Core.List.{reverse}
use memberclass_backend_gola.Common.Int.{pos}
use memberclass_backend_gola.Transcription.Chunker.{Segment, Chunk, split_into_chunks}
use memberclass_backend_gola.Transcription.Jobs.{Jobs, mark_job_completed}
use memberclass_backend_gola.Common.{
  ℕ, zero, suc, ◌+◌, ◌-◌, ◌*◌, ◌/◌, ◌%◌, ◌^◌, ◌≤◌, ◌<◌, min, String, ◌≡◌, refl, sym, ap, ◌∙◌,
  ◌≡⟨◌⟩◌, ◌∎, ◌≢◌, ◌↔◌, ◌⊎◌, inl, inr, Bool, true, false, not, ◌&&◌, ◌||◌, Option, none, some, List,
  [], ◌∷◌, ◌++◌, map, append-nil, append_assoc, arith, ltb, leb, ◌==◌, if◌then◌else◌, Bool-cases,
  Option-cases, is_some, ==_iff, ltb→lt, lt→ltb, leb→le, le→leb, length, take, drop, replicate, All,
  All-take, All-filter_by, All-implies, All-concat, filter_by, length-append, All-append, All-map,
  All-flat_map, All-sort_by, flat_map, sort_by, length-take, length-drop, take-append-drop,
  GoString, str, ◌===◌, text_eq_refl, text_eq_iff, is_empty, until, split, is_space, trim_left,
  trim_right, trim_space, to_lower_byte, to_lower,
}

pub record JobPayload : Type 0 where
  pub lesson_id : GoString
  pub tenant_id : GoString
  pub video_url : GoString
  pub course_id : GoString
  pub title : GoString

-- The row of sqlSelectTenantBunnyCreds; `none` is NULL.
pub record TenantRow : Type 0 where
  pub ai_enabled : Option Bool
  pub bunny_library_id : Option GoString
  pub bunny_library_api_key : Option GoString

pub record WhisperResponse (Time : Type 0) : Type 0 where
  pub text : GoString
  pub duration : Time
  pub segments : List (Segment Time)

pub data VideoStatus : Type 0 where
  generating_embeddings completed : VideoStatus

pub record Video (Time : Type 0) : Type 0 where
  pub id : GoString
  pub tenant_id : GoString
  pub course_id : GoString
  pub lesson_id : GoString
  pub title : GoString
  pub source_url : GoString
  pub status : VideoStatus
  pub duration : Time
  pub error : Option GoString

pub record Transcript (Time : Type 0) : Type 0 where
  pub id : GoString
  pub video_id : GoString
  pub tenant_id : GoString
  pub lesson_id : GoString
  pub text : GoString
  pub segments : List (Segment Time)
  pub processing_time : Time

pub record ChunkRow (Time Vector : Type 0) : Type 0 where
  pub id : GoString
  pub video_id : GoString
  pub transcript_id : GoString
  pub tenant_id : GoString
  pub course_id : Option GoString
  pub lesson_id : GoString
  pub text : GoString
  pub order : ℕ
  pub start_time : Time
  pub end_time : Time
  pub embedding : Vector

pub record TokenUsage : Type 0 where
  pub id : GoString
  pub tenant_id : GoString
  pub course_id : Option GoString
  pub video_id : GoString
  pub transcript_id : GoString
  pub output_cost_cents : ℕ
  pub total_cost_cents : ℕ

pub record Tables (Time Vector : Type 0) : Type 0 where
  pub videos : List (Video Time)
  pub transcripts : List (Transcript Time)
  pub chunks : List (ChunkRow Time Vector)
  pub token_usage : List TokenUsage

pub record JobResult (Time : Type 0) : Type 0 where
  pub video_id : GoString
  pub transcript_id : GoString
  pub chunks_count : ℕ
  pub duration_secs : Time
  pub cost_cents : ℕ

pub data Outcome (A : Type 0) : Type 0 where
  ready : A → Outcome A
  wrong : GoString → Outcome A

-- `render_result` is json.Marshal of a result, `open_part` gives the error of os.Open, if any,
-- `temp_dir` what os.MkdirTemp answers, and
-- `parse_url` the host and the path of a URL. `no_vector` is the nil slice.
pub record Outside : Type 1 where
  pub Time : Type 0
  pub Vector : Type 0
  pub no_vector : Vector
  pub zero_time : Time
  pub add_time : Time → Time → Time
  pub is_zero_time : Time → Bool
  pub down : ℕ → Bool
  pub now : ℕ → ℕ
  pub uuid : ℕ → GoString
  pub preflight : Option GoString
  pub decode_payload : GoString → Outcome JobPayload
  pub select_tenant : ℕ → GoString → Outcome (Option TenantRow)
  pub parse_url : GoString → Option (GoString × GoString)
  pub temp_dir : Outcome (Unit {0})
  pub resolve_audio : ℕ → GoString → GoString → GoString → Outcome (List GoString × Time)
  pub open_part : GoString → Option GoString
  pub transcribe_audio : ℕ → GoString → Outcome (WhisperResponse Time)
  pub embed_batch : ℕ → List GoString → Outcome (List Vector × ℕ)
  pub whisper_cost_cents : Time → ℕ
  pub embed_cost_cents : ℕ → ℕ
  pub render_result : JobResult Time → GoString

-- The two databases: the tables and the jobs of one, the lessons marked as transcribed of the other.
pub record World (Time Vector : Type 0) : Type 0 where
  pub tables : Tables Time Vector
  pub jobs : Jobs
  pub transcribed : List GoString
  pub calls : ℕ

-- Of what was transcribed so far: the segments, the text, the time and the cost.
pub record Heard (Time : Type 0) : Type 0 where
  pub segments : List (Segment Time)
  pub text : GoString
  pub elapsed : Time
  pub cost : ℕ

abbrev pub embed_batch_size : ℕ
embed_batch_size = 96

abbrev pub nullable_string : GoString → Option GoString
nullable_string [] = none
nullable_string (c ∷ cs) = some (c ∷ cs)

abbrev pub is_true : Option Bool → Bool
is_true none = false
is_true (some b) = b

abbrev pub text_or_empty : Option GoString → GoString
text_or_empty none = []
text_or_empty (some t) = t

abbrev pub P : Type 0 → Type 0 → Type 0 → Type 0
P Time Vector A = World Time Vector → Outcome A × World Time Vector

abbrev pub after_outcome :
    {Time Vector A B : Type 0}
    → Outcome A × World Time Vector
    → (A → P Time Vector B)
    → Outcome B × World Time Vector
after_outcome (ready a, w) f = f a w
after_outcome (wrong e, w) f = (wrong e, w)

infixl 5 ◌>>=◌
unfoldable pub ◌>>=◌ :
    {Time Vector A B : Type 0} → P Time Vector A → (A → P Time Vector B) → P Time Vector B
◌>>=◌ m f w = after_outcome (m w) f

unfoldable pub pure : {Time Vector A : Type 0} → A → P Time Vector A
pure a w = (ready a, w)

unfoldable pub stop : {Time Vector A : Type 0} → String → P Time Vector A
stop text w = (wrong (str text), w)

unfoldable pub lift : {Time Vector A : Type 0} → String → Outcome A → P Time Vector A
lift text (ready a) w = (ready a, w)
lift text (wrong e) w = (wrong (str text ++ e), w)

unfoldable pub unless : {Time Vector : Type 0} → Bool → String → P Time Vector (Unit {0})
unless true text = pure tt
unless false text = stop text

abbrev pub called : {Time Vector : Type 0} → World Time Vector → World Time Vector
called w = record w { calls = suc w.calls }

-- strings.Trim(s, "/")
unfoldable pub trim_slashes_left : GoString → GoString
trim_slashes_left [] = []
trim_slashes_left (c ∷ cs) = let rest = trim_slashes_left cs in if c == b'/' then rest else c ∷ cs

unfoldable pub trim_slashes : GoString → GoString
unfolding trim_slashes_left
trim_slashes s = reverse (trim_slashes_left (reverse (trim_slashes_left s)))

abbrev pub library_and_guid : List GoString → Outcome (GoString × GoString)
library_and_guid (kind ∷ library_id ∷ guid ∷ rest) =
    if not (kind === str "embed")
    then wrong (str "not a Bunny embed URL")
    else (if is_empty library_id || is_empty guid
        then wrong (str "empty libraryId/guid")
        else ready (library_id, guid))
library_and_guid parts = wrong (str "not a Bunny embed URL")

abbrev pub guid_of_url : Option (GoString × GoString) → Outcome (GoString × GoString)
guid_of_url none = wrong (str "parse embed url")
guid_of_url (some (host, path)) =
    if not (host === str "iframe.mediadelivery.net")
    then wrong (str "not a Bunny iframe URL")
    else library_and_guid (split b'/' (trim_slashes path))

abbrev pub credentials : Option TenantRow → Outcome (GoString × GoString)
credentials none = wrong (str "tenant not found")
credentials (some t) =
    if not (is_true t.ai_enabled)
    then wrong (str "tenant has aiEnabled=false")
    else (if is_empty (text_or_empty t.bunny_library_id)
          || is_empty (text_or_empty t.bunny_library_api_key)
        then wrong (str "tenant missing Bunny credentials")
        else ready (text_or_empty t.bunny_library_id, text_or_empty t.bunny_library_api_key))

abbrev pub find_video :
    {Time : Type 0} → GoString → GoString → List (Video Time) → Option (Video Time)
find_video tenant_id url [] = none
find_video tenant_id url (v ∷ vs) =
    let rest = find_video tenant_id url vs in
    if (v.tenant_id === tenant_id) && (v.source_url === url) then some v else rest

abbrev pub update_video :
    {Time : Type 0} → GoString → (Video Time → Video Time) → List (Video Time) → List (Video Time)
update_video id f [] = []
update_video id f (v ∷ vs) = (if v.id === id then f v else v) ∷ update_video id f vs

-- sqlUpsertVideo
abbrev pub upserted :
    {Time : Type 0}
    → Option (Video Time)
    → Video Time
    → List (Video Time)
    → List (Video Time) × GoString
upserted none v vs = (vs ++ v ∷ [], v.id)
upserted (some old) v vs = (
  update_video old.id
      (λ x. record x { status = v.status; lesson_id = v.lesson_id; duration = v.duration }) vs,
  old.id,
)
