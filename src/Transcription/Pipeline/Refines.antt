-- ===== src/Transcription/Pipeline/Refines.antt =====
-- executeJob of pipeline.go against an abstract store: for each video the texts of its chunks, each with
-- the vector of its own text.
use mathlib.Core.List.{map-append, append-nil}
use memberclass_backend_gola.Transcription.Chunker.{Chunk, split_into_chunks}
use memberclass_backend_gola.Common.{
  ℕ, zero, suc, ◌≤◌, String, ◌≡◌, refl, sym, ap, ◌∙◌, inl, inr, Bool, true, false, not, List, [],
  ◌∷◌, ◌++◌, map, arith, if◌then◌else◌, Bool-cases, length, take, drop, filter_by, length-drop,
  take-append-drop, GoString, ◌===◌, text_eq_refl, text_eq_iff,
}
use memberclass_backend_gola.Transcription.Pipeline.Videos.{IsVideoOf}
use memberclass_backend_gola.Transcription.Pipeline.{
  Video, JobPayload, ChunkRow, Tables, Outcome, Outside, World, embed_batch_size, P, pure, stop,
  lift, unless, called, ready, wrong, JobResult, Heard, pos,
}
use memberclass_backend_gola.Transcription.Pipeline.Execute.{
  Run, ask, rolled_back, in_transaction, embed_chunks, complete_job, publish,
  mark_lesson_transcribed, is_down, write_tables,
}
use memberclass_backend_gola.Transcription.Pipeline.Publishing.{
  Ensures, Ensures-bind, Ensures-pure, Rows, HasChunks, RowsFor, wrong_not_ready, ready_eq,
  Ensures-weaken, write_tables-Ensures,
}

-- The abstract store, at a video.
unfoldable pub view :
    {Time Vector : Type 0} → GoString → Tables Time Vector → List (GoString × Vector)
view video_id t =
    map (λ row. (row.text, row.embedding)) (filter_by (λ row. row.video_id === video_id) t.chunks)

module _ {A : Type 0} (test : A → Bool) where
  filter_by-append :
      (xs ys : List A) → filter_by test (xs ++ ys) ≡ filter_by test xs ++ filter_by test ys
  filter_by-append [] ys = refl
  filter_by-append (x ∷ xs) ys = elim (Bool-cases (test x)) [
    | inl holds ↦ rw holds (ap (λ (r : List A). x ∷ r) (filter_by-append xs ys))
    | inr fails ↦ rw fails (filter_by-append xs ys)
  ]

  filter_by-none :
      (other : A → Bool)
      → ((x : A) → other x ≡ true → test x ≡ false)
      → (xs : List A) → filter_by test (filter_by other xs) ≡ []
  filter_by-none other apart [] = refl
  filter_by-none other apart (x ∷ xs) = elim (Bool-cases (other x)) [
    | inl holds ↦ rw (holds, apart x holds) (filter_by-none other apart xs)
    | inr fails ↦ rw fails (filter_by-none other apart xs)
  ]

  filter_by-all :
      (other : A → Bool)
      → ((x : A) → other x ≡ false → test x ≡ false)
      → (xs : List A) → filter_by test (filter_by other xs) ≡ filter_by test xs
  filter_by-all other within [] = refl
  filter_by-all other within (x ∷ xs) = elim (Bool-cases (other x)) [
    | inl holds ↦
        rw holds (
          ap (λ (rest : List A). if test x then x ∷ rest else rest) (filter_by-all other within xs))
    | inr fails ↦ rw (fails, within x fails) (filter_by-all other within xs)
  ]

false_of_negated : (b : Bool) → not b ≡ true → b ≡ false
false_of_negated true h = cc
false_of_negated false h = refl

true_of_negated : (b : Bool) → not b ≡ false → b ≡ true
true_of_negated true h = refl
true_of_negated false h = cc

module _ (o : Outside) where
  open o use {Time, Vector}

  Ensures-ask :
      {A : Type 0} (P : World Time Vector → Type 0) (K : A → Type 0) (text : String)
      (request : ℕ → Outcome A)
      → ((w : World Time Vector) → P w → P (called w))
      → ((n : ℕ) (a : A) → request n ≡ ready a → K a)
      → Ensures o P (ask o text request) (λ a w. P w × K a)
  unfolding Ensures ask lift
  Ensures-ask {A} P K text request next known w holds a v h = answered (request w.calls) refl h
    where
      answered :
          (r : Outcome A) → request w.calls ≡ r → lift text r (called w) ≡ (ready a, v) → P v × K a
      answered (ready b) is_b h =
          let same = ready_eq h in rw (← same.0, ← same.1) (next w holds, known w.calls b is_b)
      answered (wrong e) is_e h = absurd (wrong_not_ready h)

  Ensures-unless :
      (P : World Time Vector → Type 0) (b : Bool) (text : String)
      → Ensures o P (unless b text) (λ u. P)
  unfolding Ensures unless stop pure
  Ensures-unless P true text w holds a v h = let same = ready_eq h in rw (← same.1) holds
  Ensures-unless P false text w holds a v h = absurd (wrong_not_ready h)

  Ensures-given :
      {A : Type 0} (P : World Time Vector → Type 0) (K : Type 0) (m : Run o A)
      (Q : A → World Time Vector → Type 0)
      → (K → Ensures o P m Q)
      → Ensures o (λ w. P w × K) m Q
  unfolding Ensures
  Ensures-given P K m Q run w holds = run holds.1 w holds.0

  Ensures-in_transaction :
      {A : Type 0} (P : World Time Vector → Type 0) (Q : A → World Time Vector → Type 0)
      (m : Run o A)
      → Ensures o P m Q
      → Ensures o P (in_transaction o m) Q
  unfolding Ensures in_transaction
  Ensures-in_transaction {A} P Q m run w holds a v h = after (m w) refl h
    where
      after :
          (r : Outcome A × World Time Vector)
          → m w ≡ r
          → rolled_back o w.tables r ≡ (ready a, v)
          → Q a v
      after (ready b, u) is_r h = run w holds a v (is_r ∙ h)
      after (wrong e, u) is_r h = absurd (wrong_not_ready h)

  -- The vector that a text has, in whatever batch it stands.
  module _ (vector_of : GoString → Vector)
      (pointwise : (n : ℕ) (texts : List GoString) (r : List Vector × ℕ)
        → o.embed_batch n texts ≡ ready r
        → r.0 ≡ map vector_of texts) where
    abbrev text_of : Chunk Time → GoString
    text_of c = c.text

    abbrev vectors_of : List (Chunk Time) → List Vector
    vectors_of cs = map vector_of (map text_of cs)

    regroup :
        (cs : List (Chunk Time)) (first second : List Vector)
        → first ≡ vectors_of (take embed_batch_size cs)
        → second ≡ vectors_of (drop embed_batch_size cs)
        → first ++ second ≡ vectors_of cs
    regroup cs first second is_first is_second =
        ap (λ (vs : List Vector). vs ++ second) is_first
        ∙ ap (λ (vs : List Vector). vectors_of (take embed_batch_size cs) ++ vs) is_second
        ∙ sym (
            map-append vector_of (map text_of (take embed_batch_size cs))
              (map text_of (drop embed_batch_size cs)))
        ∙ ap (map vector_of)
            (sym (map-append text_of (take embed_batch_size cs) (drop embed_batch_size cs)))
        ∙ ap vectors_of (take-append-drop embed_batch_size cs)

    embed_chunks-Ensures :
        (V : List (Video Time) → Type 0) (rows : Rows o) (fuel : ℕ) (cs : List (Chunk Time))
        → length cs ≤ fuel
        → Ensures o
            (HasChunks o V rows)
            (embed_chunks o fuel cs)
            (λ r w. HasChunks o V rows w × (r.0 ≡ vectors_of cs))
    unfolding embed_chunks
    embed_chunks-Ensures V rows fuel [] enough = Ensures-pure o _ _ _ (λ w holds. (holds, refl))
    embed_chunks-Ensures V rows zero (c ∷ cs) enough = absurd (omega arith)
    embed_chunks-Ensures V rows (suc fuel) (c ∷ cs) enough =
        Ensures-bind o _
          (λ r w. HasChunks o V rows w × (r.0 ≡ vectors_of (take embed_batch_size (c ∷ cs)))) _ _ _
          (Ensures-ask _ _ _ _ (λ w holds. holds) (λ n r. pointwise n _ r))
          (λ embedded.
            Ensures-bind o _
              (λ u w.
                HasChunks o V rows w × (embedded.0 ≡ vectors_of (take embed_batch_size (c ∷ cs))))
              _ _ _ (Ensures-unless _ _ _)
              (λ u. Ensures-given _ _ _ _ (λ is_batch.
                Ensures-bind o _
                  (λ r w.
                    HasChunks o V rows w × (r.0 ≡ vectors_of (drop embed_batch_size (c ∷ cs))))
                  _ _ _
                  (embed_chunks-Ensures V rows fuel (drop embed_batch_size (c ∷ cs))
                    (omega (arith, length-drop embed_batch_size (c ∷ cs))))
                  (λ rest.
                    Ensures-pure o _ _ _ (λ w holds.
                      (holds.0, regroup (c ∷ cs) embedded.0 rest.0 is_batch holds.1))))))

    abbrev pub entry_of : Chunk Time → GoString × Vector
    entry_of c = (c.text, vector_of c.text)

    rows_view :
        (p : JobPayload) (tenant_id video_id transcript_id : GoString) (cs : List (Chunk Time))
        (rows : Rows o)
        → RowsFor o p tenant_id video_id transcript_id cs (vectors_of cs) rows
        → map
            (λ (r : ChunkRow Time Vector). (r.text, r.embedding))
            (filter_by (λ r. r.video_id === video_id) rows)
          ≡ map entry_of cs
    unfolding RowsFor
    rows_view p tenant_id video_id transcript_id [] [] h = refl
    rows_view p tenant_id video_id transcript_id [] (r ∷ rs) h = absurd h
    rows_view p tenant_id video_id transcript_id (c ∷ cs) [] h = absurd h
    rows_view p tenant_id video_id transcript_id (c ∷ cs) (r ∷ rs) h =
        rw (h.0, text_eq_refl video_id)
          (ap (λ (es : List (GoString × Vector)). entry_of c ∷ es)
            (rows_view p tenant_id video_id transcript_id cs rs h.1))

    rows_elsewhere :
        (p : JobPayload) (tenant_id video_id transcript_id other : GoString)
        (cs : List (Chunk Time)) (vs : List Vector) (rows : Rows o)
        → (video_id === other) ≡ false
        → RowsFor o p tenant_id video_id transcript_id cs vs rows
        → filter_by (λ r. r.video_id === other) rows ≡ []
    unfolding RowsFor
    rows_elsewhere p tenant_id video_id transcript_id other [] vs [] apart h = refl
    rows_elsewhere p tenant_id video_id transcript_id other [] vs (r ∷ rs) apart h = absurd h
    rows_elsewhere p tenant_id video_id transcript_id other (c ∷ cs) vs [] apart h = absurd h
    rows_elsewhere p tenant_id video_id transcript_id other (c ∷ cs) vs (r ∷ rs) apart h =
        rw (h.0, apart)
          (rows_elsewhere p tenant_id video_id transcript_id other cs (drop 1 vs) rs apart h.1)

    marked_lesson :
        (K : Tables Time Vector → Type 0) (lesson_id : GoString) (w : World Time Vector)
        → K w.tables
        → K (mark_lesson_transcribed o lesson_id w).tables
    unfolding mark_lesson_transcribed
    marked_lesson K lesson_id w holds = elim (Bool-cases (is_down o w)) [
      | inl down ↦ rw down holds
      | inr up ↦ rw up holds
    ]

    completed_job :
        (K : Tables Time Vector → Type 0) (job_id : GoString) (result : JobResult Time)
        (w : World Time Vector)
        → K w.tables
        → (a : Unit {0}) (v : World Time Vector) → complete_job o job_id result w ≡ (ready a, v)
        → K v.tables
    unfolding complete_job
    completed_job K job_id result w holds a v h = elim (Bool-cases (is_down o w)) [
      | inl down ↦ absurd (wrong_not_ready (rw down at h))
      | inr up ↦ let same = ready_eq (rw up at h) in rw (← same.1) holds
    ]

    complete_job-Ensures :
        (K : Tables Time Vector → Type 0) (job_id lesson_id : GoString) (result : JobResult Time)
        → Ensures o
            (λ w. K w.tables)
            (λ w. complete_job o job_id result (mark_lesson_transcribed o lesson_id w))
            (λ u w. K w.tables)
    unfolding Ensures
    complete_job-Ensures K job_id lesson_id result w holds a v h =
        completed_job K job_id result (mark_lesson_transcribed o lesson_id w)
          (marked_lesson K lesson_id w holds) a v h

    -- The store has the entries at the video of this tenant and URL, which keeps its row if it had one,
    -- and what it had at all others.
    abbrev pub Published :
        GoString
        → GoString
        → Tables Time Vector
        → List (GoString × Vector)
        → Tables Time Vector
        → Type 0
    Published tenant_id url before entries after =
        (video_id : GoString) × IsVideoOf tenant_id url before.videos video_id after.videos
        × (view video_id after ≡ entries)
        × ((other : GoString) → (video_id === other) ≡ false → view other after ≡ view other before)

    abbrev entries_of : Rows o → List (GoString × Vector)
    entries_of rows = map (λ row. (row.text, row.embedding)) rows

    replaced_view :
        (p : JobPayload) (tenant_id : GoString) (before after : Tables Time Vector)
        (cs : List (Chunk Time)) (vs : List Vector) (ids : GoString × GoString) (rows : Rows o)
        → vs ≡ vectors_of cs
        → RowsFor o p tenant_id ids.0 ids.1 cs vs rows
        → after.chunks ≡ filter_by (λ c. not (c.video_id === ids.0)) before.chunks ++ rows
        → IsVideoOf tenant_id p.video_url before.videos ids.0 after.videos
        → Published tenant_id p.video_url before (map entry_of cs) after
    unfolding view
    replaced_view p tenant_id before after cs vs ids rows are rows_for is is_video =
        (ids.0, is_video, here, elsewhere)
      where
        split_view :
            (video_id : GoString)
            → filter_by (λ (r : ChunkRow Time Vector). r.video_id === video_id) after.chunks
              ≡ filter_by
                  (λ r. r.video_id === video_id)
                  (filter_by (λ c. not (c.video_id === ids.0)) before.chunks)
                ++ filter_by (λ r. r.video_id === video_id) rows
        split_view video_id =
            ap (filter_by (λ (r : ChunkRow Time Vector). r.video_id === video_id)) is
            ∙ filter_by-append (λ r. r.video_id === video_id)
                (filter_by (λ c. not (c.video_id === ids.0)) before.chunks) rows

        here : entries_of (filter_by (λ r. r.video_id === ids.0) after.chunks) ≡ map entry_of cs
        here =
            ap entries_of (
              split_view ids.0
              ∙ ap (λ (rs : Rows o). rs ++ filter_by (λ r. r.video_id === ids.0) rows)
                  (filter_by-none _ _ (λ r h. false_of_negated _ h) before.chunks))
            ∙ rows_view p tenant_id ids.0 ids.1 cs rows (rw are at rows_for)

        elsewhere :
            (other : GoString)
            → (ids.0 === other) ≡ false
            → entries_of (filter_by (λ r. r.video_id === other) after.chunks)
              ≡ entries_of (filter_by (λ r. r.video_id === other) before.chunks)
        elsewhere other apart = ap entries_of (
            split_view other
            ∙ ap
                (λ (rs : Rows o).
                  filter_by (λ r. r.video_id === other)
                    (filter_by (λ c. not (c.video_id === ids.0)) before.chunks)
                  ++ rs)
                (rows_elsewhere p tenant_id ids.0 ids.1 other cs vs rows apart rows_for)
            ∙ append-nil _
            ∙ filter_by-all _ _ (λ r h. own_row r (true_of_negated _ h)) before.chunks)
          where
            own_row :
                (r : ChunkRow Time Vector)
                → (r.video_id === ids.0) ≡ true
                → (r.video_id === other) ≡ false
            own_row r own = rw ((text_eq_iff r.video_id ids.0).0 own) apart

    abbrev chunks_of : Heard Time → List (Chunk Time)
    chunks_of h = split_into_chunks o.zero_time h.segments (pos 500) (pos 50)

    -- The tables after a run on these: the rows of a video are replaced.
    abbrev Rewritten :
        JobPayload → GoString → Heard Time → Tables Time Vector → Tables Time Vector → Type 0
    Rewritten p tenant_id h before after =
        (ids : GoString × GoString) × (written : Rows o) × RowsFor o p tenant_id ids.0 ids.1
          (chunks_of h) (vectors_of (chunks_of h)) written
        × (after.chunks ≡ filter_by (λ c. not (c.video_id === ids.0)) before.chunks ++ written)
        × IsVideoOf tenant_id p.video_url before.videos ids.0 after.videos

    abbrev Started : Tables Time Vector → World Time Vector → Type 0
    Started before = HasChunks o (λ vs. vs ≡ before.videos) before.chunks

    write_tables-Rewritten :
        (p : JobPayload) (tenant_id : GoString) (duration : Time) (h : Heard Time)
        (vs : List Vector) (cost : ℕ) (before : Tables Time Vector)
        → vs ≡ vectors_of (chunks_of h)
        → Ensures o
            (Started before)
            (in_transaction o (write_tables o p tenant_id duration h (chunks_of h) vs cost))
            (λ ids v. Rewritten p tenant_id h before v.tables)
    write_tables-Rewritten p tenant_id duration h vs cost before are =
        Ensures-in_transaction _ _ _ (
          Ensures-weaken o _ _ _ _
            (write_tables-Ensures o p tenant_id duration h (chunks_of h) vs cost before.chunks
              before.videos)
            (λ ids v copied. (ids, copied.0, (rw are at (copied.1)), copied.2, copied.3)))

    publish-Ensures :
        (job_id tenant_id : GoString) (p : JobPayload) (duration : Time) (h : Heard Time)
        (before : Tables Time Vector)
        → Ensures o
            (Started before)
            (publish o job_id tenant_id p duration h)
            (λ u v. Rewritten p tenant_id h before v.tables)
    unfolding publish
    publish-Ensures job_id tenant_id p duration h before =
        Ensures-bind o _ (λ u. Started before) _ _ _ (Ensures-unless _ _ _)
          (λ some_chunks.
            Ensures-bind o _ (λ r w. Started before w × (r.0 ≡ vectors_of (chunks_of h))) _ _ _
              (embed_chunks-Ensures _ before.chunks _ (chunks_of h) (omega arith))
              (λ embedded. Ensures-given _ _ _ _ (λ are.
                Ensures-bind o _ (λ ids v. Rewritten p tenant_id h before v.tables) _ _ _
                  (write_tables-Rewritten p tenant_id duration h embedded.0 _ before are)
                  (λ ids.
                    complete_job-Ensures (Rewritten p tenant_id h before) job_id p.lesson_id _))))

    -- Where a text has the same vector in whatever batch it is embedded, a run that publishes what was
    -- heard replaces the entries of one video by the texts of the chunks, in their order and each with
    -- its own vector, and leaves the entries of every other video as they were. The video is the row for
    -- the tenant and the URL of the payload afterwards, with the id that it had before, if it was there.
    pub publish-Published :
        (job_id tenant_id : GoString) (p : JobPayload) (duration : Time) (h : Heard Time)
        (w v : World Time Vector)
        → publish o job_id tenant_id p duration h w ≡ (ready tt, v)
        → Published tenant_id p.video_url w.tables
            (map entry_of (split_into_chunks o.zero_time h.segments (pos 500) (pos 50)))
            v.tables
    unfolding Ensures
    publish-Published job_id tenant_id p duration h w v is =
        let (ids, written, rows_for, rows_are, is_video) =
          publish-Ensures job_id tenant_id p duration h w.tables w (refl, refl) tt v is in
        replaced_view p tenant_id w.tables v.tables (chunks_of h) _ ids written refl rows_for
          rows_are is_video
