-- ===== src/Transcription/Pipeline/Publishing.antt =====
-- A run of executeJob that succeeds, against an abstract store that keeps the texts and the vectors of
-- each video.

use memberclass_backend_gola.Transcription.Chunker.{Chunk}
use memberclass_backend_gola.Common.{
  none, ℕ, String, ◌≡◌, refl, sym, ap, ◌∙◌, inl, inr, not, List, [], ◌∷◌, ◌++◌, append-nil,
  append_assoc, Bool-cases, drop, filter_by, GoString, ◌===◌,
}
use mathlib.Core.Path.{subst}
use memberclass_backend_gola.Transcription.Pipeline.Videos.{
  IsVideoOf, upserted-IsVideoOf, find_video-update_video,
}
use memberclass_backend_gola.Transcription.Pipeline.{
  Video, completed, JobPayload, ChunkRow, Tables, Outcome, Outside, World, Heard, P, after_outcome,
  ◌>>=◌, pure, called, ready, wrong,
}
use memberclass_backend_gola.Transcription.Pipeline.Execute.{
  video_of, Run, is_down, statement, chunk_row, first_vector, append_chunk, upsert_video,
  delete_chunks_by_video, delete_transcripts_by_video, insert_transcript, copy_chunks,
  complete_video, insert_token_usage, write_tables,
}

pub ready_eq :
    {A W : Type 0} {a b : A} {v w : W}
    → ◌≡◌ {A = Outcome A × W} (ready a, v) (ready b, w)
    → (a ≡ b) × (v ≡ w)
ready_eq {A} {W} {a} {b} h =
    let same : ◌≡◌ {A = Outcome A} (ready a) (ready b) = ap (λ r. r.0) h in
    (cc (same), ap (λ r. r.1) h)

pub wrong_not_ready :
    {A W : Type 0} {a : A} {b : GoString} {v w : W}
    → ◌≡◌ {A = Outcome A × W} (wrong b, v) (ready a, w)
    → ⊥
wrong_not_ready {A} {W} {a} {b} h =
    let same : ◌≡◌ {A = Outcome A} (wrong b) (ready a) = ap (λ r. r.0) h in cc (same)

module _ (o : Outside) where
  open o use {Time, Vector}

  abbrev pub Rows : Type 0
  Rows = List (ChunkRow Time Vector)

  -- From a world with P, a run that gives a result gives one with Q.
  unfoldable pub Ensures :
      {A : Type 0}
      → (World Time Vector → Type 0)
      → Run o A
      → (A → World Time Vector → Type 0)
      → Type 0
  Ensures {A} P m Q =
      (w : World Time Vector) → P w → (a : A) (v : World Time Vector) → m w ≡ (ready a, v) → Q a v

  pub Ensures-bind :
      {A B : Type 0} (P : World Time Vector → Type 0) (Q : A → World Time Vector → Type 0)
      (R : B → World Time Vector → Type 0) (m : Run o A) (f : A → Run o B)
      → Ensures P m Q
      → ((a : A) → Ensures (Q a) (f a) R)
      → Ensures P (m >>= f) R
  unfolding Ensures ◌>>=◌
  Ensures-bind {A} {B} P Q R m f first second w holds b v h = after (m w) refl h
    where
      after :
          (r : Outcome A × World Time Vector) → m w ≡ r → after_outcome r f ≡ (ready b, v) → R b v
      after (ready a, u) is_r h = second a u (first w holds a u is_r) b v h
      after (wrong e, u) is_r h = absurd (wrong_not_ready h)

  pub Ensures-pure :
      {A : Type 0} (P : World Time Vector → Type 0) (Q : A → World Time Vector → Type 0) (a : A)
      → ((w : World Time Vector) → P w → Q a w)
      → Ensures P (pure a) Q
  unfolding Ensures pure
  Ensures-pure P Q a step w holds b v h =
      let same = ready_eq h in rw (← same.0, ← same.1) (step w holds)

  -- What a run is may depend on the world where it starts.
  pub Ensures-at :
      {A : Type 0} (P : World Time Vector → Type 0) (Q : A → World Time Vector → Type 0)
      (f : World Time Vector → Run o A)
      → ((w : World Time Vector) → Ensures P (f w) Q)
      → Ensures P (λ w. f w w) Q
  unfolding Ensures
  Ensures-at P Q f each w = each w w

  Ensures-now :
      {A : Type 0} (P : World Time Vector → Type 0) (f : World Time Vector → A)
      → Ensures P (λ w. (ready (f w), w)) (λ a. P)
  unfolding Ensures
  Ensures-now P f w holds b v h = let same = ready_eq h in rw (← same.1) holds

  pub Ensures-exists :
      {A I : Type 0} (P : I → World Time Vector → Type 0) (m : Run o A)
      (R : A → World Time Vector → Type 0)
      → ((i : I) → Ensures (P i) m R)
      → Ensures (λ w. (i : I) × P i w) m R
  unfolding Ensures
  Ensures-exists P m R each w (i, holds) = each i w holds

  pub Ensures-weaken :
      {A : Type 0} (P : World Time Vector → Type 0) (m : Run o A)
      (Q R : A → World Time Vector → Type 0)
      → Ensures P m Q
      → ((a : A) (w : World Time Vector) → Q a w → R a w)
      → Ensures P m R
  unfolding Ensures
  Ensures-weaken P m Q R run weaker w holds a v h = weaker a v (run w holds a v h)

  pub Ensures-statement :
      (P : World Time Vector → Type 0) (Q : Unit {0} → World Time Vector → Type 0) (text : String)
      (write : Tables Time Vector → Tables Time Vector)
      → ((w : World Time Vector) → P w → Q tt (called (record w { tables = write w.tables })))
      → Ensures P (statement o text write) Q
  unfolding Ensures statement
  Ensures-statement P Q text write step w holds a v h = elim (Bool-cases (is_down o w)) [
    | inl down ↦ absurd (wrong_not_ready (rw down at h))
    | inr up ↦ let same = ready_eq (rw up at h) in rw (← same.1) (step w holds)
  ]

  -- The chunks of the tables, and what holds of the videos.
  abbrev pub HasChunks : (List (Video Time) → Type 0) → Rows → World Time Vector → Type 0
  HasChunks V rows w = (w.tables.chunks ≡ rows) × V w.tables.videos

  -- The rows that are written for the chunks, in their order.
  unfoldable pub RowsFor :
      JobPayload → GoString → GoString → GoString → List (Chunk Time) → List Vector → Rows → Type 0
  RowsFor p tenant_id video_id transcript_id [] vs [] = Unit {0}
  RowsFor p tenant_id video_id transcript_id [] vs (r ∷ rs) = ⊥
  RowsFor p tenant_id video_id transcript_id (c ∷ cs) vs [] = ⊥
  RowsFor p tenant_id video_id transcript_id (c ∷ cs) vs (r ∷ rs) =
      (r ≡ chunk_row o p tenant_id video_id transcript_id r.id c (first_vector o vs))
      × RowsFor p tenant_id video_id transcript_id cs (drop 1 vs) rs

  module _ (V : List (Video Time) → Type 0) (p : JobPayload)
      (tenant_id video_id transcript_id : GoString) where
    abbrev pub Copied :
        Rows → List (Chunk Time) → List Vector → Unit {0} → World Time Vector → Type 0
    Copied before cs vs u w =
        (rows : Rows) × RowsFor p tenant_id video_id transcript_id cs vs rows
        × (w.tables.chunks ≡ before ++ rows)
        × V w.tables.videos

    copy_chunks-Ensures :
        (cs : List (Chunk Time)) (vs : List Vector) (before : Rows)
        → Ensures
            (HasChunks V before)
            (copy_chunks o p tenant_id video_id transcript_id cs vs)
            (Copied before cs vs)
    unfolding copy_chunks RowsFor
    copy_chunks-Ensures [] vs before =
        Ensures-pure _ _ tt (λ w holds. ([], tt, holds.0 ∙ sym (append-nil before), holds.1))
    copy_chunks-Ensures (c ∷ cs) vs before =
        Ensures-bind (HasChunks V before) (λ u w. One w) _ _ _
          (Ensures-at (HasChunks V before) (λ u w. One w)
            (λ w. statement o "copy chunk" (
              append_chunk o (
                chunk_row o p tenant_id video_id transcript_id (o.uuid w.calls) c
                  (first_vector o vs))))
            (λ w0. Ensures-statement _ _ _ _ (λ w holds. (
              o.uuid w0.calls,
              (ap (λ (rows : Rows). rows ++ row (o.uuid w0.calls) ∷ []) holds.0, holds.1),
            ))))
          (λ u.
            Ensures-exists _ _ _
              (λ id. more id (copy_chunks-Ensures cs (drop 1 vs) (before ++ row id ∷ []))))
      where
        row : GoString → ChunkRow Time Vector
        row id = chunk_row o p tenant_id video_id transcript_id id c (first_vector o vs)

        One : World Time Vector → Type 0
        One w = (id : GoString) × HasChunks V (before ++ row id ∷ []) w

        more :
            (id : GoString)
            → Ensures
                (HasChunks V (before ++ row id ∷ []))
                (copy_chunks o p tenant_id video_id transcript_id cs (drop 1 vs))
                (Copied (before ++ row id ∷ []) cs (drop 1 vs))
            → Ensures
                (HasChunks V (before ++ row id ∷ []))
                (copy_chunks o p tenant_id video_id transcript_id cs (drop 1 vs))
                (Copied before (c ∷ cs) vs)
        more id rest = Ensures-weaken _ _ _ _ rest (λ u w copied. (
          row id ∷ copied.0,
          (refl, copied.1),
          copied.2 ∙ append_assoc before (row id ∷ []) copied.0,
          copied.3,
        ))

  -- Statements that leave the chunks and the videos alone.
  Ensures-keep :
      (V : List (Video Time) → Type 0) (rows : Rows) (text : String)
      (write : Tables Time Vector → Tables Time Vector)
      → ((t : Tables Time Vector) → ((write t).chunks ≡ t.chunks) × ((write t).videos ≡ t.videos))
      → Ensures (HasChunks V rows) (statement o text write) (λ u. HasChunks V rows)
  Ensures-keep V rows text write same = Ensures-statement _ _ text write (λ w holds.
      let (chunks, videos) = same w.tables in (chunks ∙ holds.0, subst V (sym videos) holds.1))

  -- The upsert gives the id of the video of this tenant and URL.
  upsert_video-Ensures :
      (rows : Rows) (videos : List (Video Time)) (p : JobPayload) (tenant_id : GoString)
      (duration : Time)
      → Ensures
          (HasChunks (λ vs. vs ≡ videos) rows)
          (upsert_video o p tenant_id duration)
          (λ id. HasChunks (IsVideoOf tenant_id p.video_url videos id) rows)
  unfolding Ensures upsert_video
  upsert_video-Ensures rows videos p tenant_id duration w holds a v h =
      elim (Bool-cases (is_down o w)) [
        | inl down ↦ absurd (wrong_not_ready (rw down at h))
        | inr up ↦
            let same = ready_eq (rw up at h) in
            let before = w.tables.videos in
            let found =
              upserted-IsVideoOf tenant_id p.video_url
                (video_of o p tenant_id duration (o.uuid w.calls)) before refl refl in
            rw (← same.0, ← same.1, ← holds.1) ((holds.0, found))
      ]

  -- The rows of other videos, then those of the chunks.
  abbrev pub Replaced :
      List (Video Time)
      → JobPayload
      → GoString
      → Rows
      → List (Chunk Time)
      → List Vector
      → GoString × GoString
      → World Time Vector
      → Type 0
  Replaced videos p tenant_id before cs vs ids w =
      Copied (IsVideoOf tenant_id p.video_url videos ids.0) p tenant_id ids.0 ids.1
        (filter_by (λ c. not (c.video_id === ids.0)) before) cs vs tt w

  -- Completing the video keeps its row.
  completed_keeps :
      (p : JobPayload) (tenant_id video_id transcript_id : GoString) (others : Rows)
      (cs : List (Chunk Time)) (vs : List Vector) (videos : List (Video Time))
      → let copied =
          Copied
            (IsVideoOf tenant_id p.video_url videos video_id)
            p
            tenant_id
            video_id
            transcript_id
            others
            cs
            vs in
        Ensures (copied tt) (complete_video o video_id) (λ u. copied tt)
  unfolding complete_video
  completed_keeps p tenant_id video_id transcript_id others cs vs videos =
      Ensures-statement _ _ _ _ (λ w holds.
        let (rows, are, table, (kept, v, found, is_id)) = holds in
        let (u, still, same_id) =
          find_video-update_video tenant_id p.video_url video_id
            (λ x. record x { status = completed; error = none }) (λ x. (refl, refl, refl))
            w.tables.videos v found in
        (rows, are, table, (kept, u, still, same_id ∙ is_id)))

  pub write_tables-Ensures :
      (p : JobPayload) (tenant_id : GoString) (duration : Time) (h : Heard Time)
      (cs : List (Chunk Time)) (vs : List Vector) (cost : ℕ) (before : Rows)
      (videos : List (Video Time))
      → Ensures
          (HasChunks (λ xs. xs ≡ videos) before)
          (write_tables o p tenant_id duration h cs vs cost)
          (Replaced videos p tenant_id before cs vs)
  unfolding write_tables delete_chunks_by_video delete_transcripts_by_video insert_transcript
      complete_video insert_token_usage
  write_tables-Ensures p tenant_id duration h cs vs cost before videos =
      Ensures-bind _ (λ u. HasChunks (λ xs. xs ≡ videos) before) _ _ _
        (Ensures-keep _ before _ _ (λ t. (refl, refl)))
        (λ begun.
          Ensures-bind _ (λ id. HasChunks (IsVideoOf tenant_id p.video_url videos id) before) _ _ _
            (upsert_video-Ensures before videos p tenant_id duration)
            (λ video_id.
              let others =
                filter_by (λ (c : ChunkRow Time Vector). not (c.video_id === video_id)) before in
              Ensures-bind _ (λ u. HasChunks (now video_id) others) _ _ _
                (Ensures-statement _ _ _ _ (λ w holds. (
                  ap (filter_by (λ (c : ChunkRow Time Vector). not (c.video_id === video_id)))
                      holds.0,
                  holds.1,
                )))
                (λ no_chunks.
                  Ensures-bind _ (λ u. HasChunks (now video_id) others) _ _ _
                    (Ensures-keep _ others _ _ (λ t. (refl, refl)))
                    (λ no_transcripts.
                      Ensures-bind _ (λ u. HasChunks (now video_id) others) _ _ _ (Ensures-now _ _)
                        (λ transcript_id.
                          Ensures-bind _ (λ u. HasChunks (now video_id) others) _ _ _
                            (Ensures-keep _ others _ _ (λ t. (refl, refl)))
                            (λ inserted.
                              Ensures-bind _ (λ u. HasChunks (now video_id) others) _ _ _
                                (Ensures-keep _ others _ _ (λ t. (refl, refl)))
                                (λ prepared.
                                  let copied =
                                    Copied (now video_id) p tenant_id video_id transcript_id others
                                      cs vs in
                                  Ensures-bind _ copied _ _ _
                                    (copy_chunks-Ensures (now video_id) p tenant_id video_id
                                      transcript_id cs vs others)
                                    (λ done.
                                      Ensures-bind _ (λ u. copied tt) _ _ _
                                        (Ensures-statement _ _ _ _ (λ w holds. holds))
                                        (λ flushed.
                                          Ensures-bind _ (λ u. copied tt) _ _ _
                                            (Ensures-statement _ _ _ _ (λ w holds. holds))
                                            (λ closed.
                                              Ensures-bind _ (λ u. copied tt) _ _ _
                                                (completed_keeps p tenant_id video_id transcript_id
                                                  others cs vs videos)
                                                (λ finished.
                                                  Ensures-bind _ (λ u. copied tt) _ _ _
                                                    (Ensures-at _ _ _ (λ w0.
                                                      Ensures-statement _ _ _ _ (λ w holds. holds)))
                                                    (λ billed.
                                                      Ensures-bind _ (λ u. copied tt) _ _ _
                                                        (Ensures-statement _ _ _ _
                                                          (λ w holds. holds))
                                                        (λ committed.
                                                          Ensures-pure _ _ _
                                                            (λ w holds. holds))))))))))))))
    where
      now : GoString → List (Video Time) → Type 0
      now id = IsVideoOf tenant_id p.video_url videos id
