-- ===== src/Transcription/Chunker/Runs.antt =====
-- The chunks are runs of consecutive segments: each starts with an end of the run before.
use memberclass_backend_gola.Common.{
  ℕ, suc, ◌+◌, ◌≤◌, ◌<◌, ◌≡◌, refl, sym, ap, ◌∙◌, ◌⊎◌, inl, inr, Bool, true, false, ◌&&◌, List, [],
  ◌∷◌, ◌++◌, append-nil, append_assoc, arith, ltb, ◌==◌, if◌then◌else◌, Bool-cases, length,
  length-append, GoString, trim_space,
}
use memberclass_backend_gola.Common.Int.{ℤ}
use mathlib.Core.Path.{subst}
use memberclass_backend_gola.Transcription.Chunker.{
  Segment, Chunk, Work, blank, tokens_of, max_tokens_of, overlap_of, walk_back, add_segment,
  add_segments, first_start, flush, new_chunk, turn_over, join_segment, chunk_round, chunk_loop,
  split_into_chunks,
}

module _ {Time : Type 0} where
  -- The tokens and the text of a run.
  abbrev pub total : List (Segment Time) → ℕ
  total [] = 0
  total (seg ∷ segs) = tokens_of seg + total segs

  abbrev pub joined : List (Segment Time) → GoString
  joined [] = []
  joined (seg ∷ segs) = seg.text ++ (blank ++ joined segs)

  -- The time is the start of the first segment, the end of the last one.
  abbrev pub StartsAt : List (Segment Time) → Time → Type 0
  StartsAt [] t = Unit
  StartsAt (seg ∷ segs) t = t ≡ seg.start

  abbrev pub EndsAt : List (Segment Time) → Time → Type 0
  EndsAt [] t = Unit
  EndsAt (seg ∷ []) t = t ≡ seg.end
  EndsAt (seg ∷ next ∷ segs) t = EndsAt (next ∷ segs) t

  -- What a run becomes.
  pub record IsChunk (k : ℕ) (run : List (Segment Time)) (c : Chunk Time) : Type 0 where
    pub numbered : c.order ≡ k
    pub text_of : c.text ≡ trim_space (joined run)
    pub tokens_total : c.tokens ≡ total run
    pub some_tokens : 0 < c.tokens
    pub starts : StartsAt run c.start_time
    pub ends : EndsAt run c.end_time

  -- The same of a chunk that is being filled.
  pub record IsRaw (run : List (Segment Time)) (c : Chunk Time) : Type 0 where
    pub unnumbered : c.order ≡ 0
    pub text_of : c.text ≡ joined run
    pub tokens_total : c.tokens ≡ total run
    pub ends : EndsAt run c.end_time

  abbrev pub IsSuffix : List (Segment Time) → List (Segment Time) → Type 0
  IsSuffix xs ys = (front : List (Segment Time)) × (front ++ xs ≡ ys)

  -- The chunks, numbered from k, hold the segments of `rest` in order, each in one run as a fresh
  -- segment, behind an overlap with the end of the run before; segments at the end that have no
  -- tokens may be left out.
  pub data Cover : ℕ → List (Segment Time) → List (Segment Time) → List (Chunk Time) → Type 0 where
    stop : {k : ℕ} {prev rest : List (Segment Time)} → total rest ≡ 0 → Cover k prev rest []
    chunk :
        {k : ℕ} {prev rest : List (Segment Time)} {c : Chunk Time} {cs : List (Chunk Time)}
        (overlap fresh later : List (Segment Time))
        → IsSuffix overlap prev
        → rest ≡ fresh ++ later
        → IsChunk k (overlap ++ fresh) c
        → Cover (suc k) (overlap ++ fresh) later cs
        → Cover k prev rest (c ∷ cs)

  pub total-append : (xs ys : List (Segment Time)) → total (xs ++ ys) ≡ total xs + total ys
  total-append [] ys = omega arith
  total-append (x ∷ xs) ys = omega (arith, total-append xs ys)

  pub joined-append : (xs ys : List (Segment Time)) → joined (xs ++ ys) ≡ joined xs ++ joined ys
  joined-append [] ys = refl
  joined-append (x ∷ xs) ys = simp (joined-append xs ys, append_assoc)

  EndsAt-append : (xs : List (Segment Time)) (seg : Segment Time) → EndsAt (xs ++ seg ∷ []) seg.end
  EndsAt-append [] seg = refl
  EndsAt-append (x ∷ []) seg = refl
  EndsAt-append (x ∷ y ∷ xs) seg = EndsAt-append (y ∷ xs) seg

  add_segment-IsRaw :
      (run : List (Segment Time)) (c : Chunk Time) (seg : Segment Time)
      → IsRaw run c
      → IsRaw (run ++ seg ∷ []) (add_segment c seg)
  unfolding add_segment
  add_segment-IsRaw run c seg h = record {
    unnumbered = h.unnumbered;
    text_of = rw h.text_of (simp (joined-append run (seg ∷ []), append-nil));
    tokens_total = omega (arith, h.tokens_total, total-append run (seg ∷ []));
    ends = EndsAt-append run seg;
  }

  add_segments-IsRaw :
      (run segs : List (Segment Time)) (c : Chunk Time)
      → IsRaw run c
      → IsRaw (run ++ segs) (add_segments c segs)
  unfolding add_segments
  add_segments-IsRaw run [] c h = rw append-nil h
  add_segments-IsRaw run (seg ∷ segs) c h =
      let ih =
        add_segments-IsRaw (run ++ seg ∷ []) segs (add_segment c seg)
          (add_segment-IsRaw run c seg h) in
      rw (append_assoc run (seg ∷ []) segs) at ih

  new_chunk-IsRaw : (zero_time start : Time) → IsRaw [] (new_chunk zero_time start)
  unfolding new_chunk
  new_chunk-IsRaw zero_time start = record {
    unnumbered = refl;
    text_of = refl;
    tokens_total = refl;
    ends = tt;
  }

  add_segments-start :
      (c : Chunk Time) (segs : List (Segment Time))
      → (add_segments c segs).start_time ≡ c.start_time
  unfolding add_segments
  add_segments-start c [] = refl
  add_segments-start c (seg ∷ segs) = add_segments-start (add_segment c seg) segs

  -- The walk back takes every segment, or has carried enough.
  walk_back_cases :
      (overlap : ℕ) (segs : List (Segment Time))
      → ((walk_back overlap segs).0 ≡ segs) ⊎ (overlap ≤ (walk_back overlap segs).1)
  unfolding walk_back
  walk_back_cases overlap [] = inl refl
  walk_back_cases overlap (seg ∷ segs) =
      elim (Bool-cases (ltb (walk_back overlap segs).1 overlap)) [
        | inl more ↦ elim (walk_back_cases overlap segs) [
          | inl whole ↦ inl (rw more (ap (λ t. seg ∷ t) whole))
          | inr full ↦ absurd (ground arith)
        ]
        | inr full ↦ inr (rw full (ground arith))
      ]

  walk_back-IsSuffix :
      (overlap : ℕ) (segs : List (Segment Time)) → IsSuffix (walk_back overlap segs).0 segs
  unfolding walk_back
  walk_back-IsSuffix overlap [] = ([], refl)
  walk_back-IsSuffix overlap (seg ∷ segs) =
      elim (Bool-cases (ltb (walk_back overlap segs).1 overlap)) [
        | inl more ↦ elim (walk_back_cases overlap segs) [
          | inl whole ↦ ([], rw more (ap (λ t. seg ∷ t) whole))
          | inr full ↦ absurd (ground arith)
        ]
        | inr full ↦
            let (front, e) = walk_back-IsSuffix overlap segs in
            (seg ∷ front, rw full (ap (λ t. seg ∷ t) e))
      ]

  IsSuffix-trans :
      (xs ys zs : List (Segment Time)) → IsSuffix xs ys → IsSuffix ys zs → IsSuffix xs zs
  IsSuffix-trans xs ys zs (p, e) (q, f) = (q ++ p, append_assoc q p xs ∙ (rw e f))

  IsSuffix-append :
      (xs ys zs : List (Segment Time)) → IsSuffix xs ys → IsSuffix (xs ++ zs) (ys ++ zs)
  IsSuffix-append xs ys zs (p, e) = (p, sym (append_assoc p xs zs) ∙ ap (λ t. t ++ zs) e)

  -- The window after a segment has joined ends the run with it.
  window-IsSuffix :
      (b : Bool) (window run : List (Segment Time)) (seg : Segment Time)
      → IsSuffix window run
      → IsSuffix ((if b then [] else window) ++ seg ∷ []) (run ++ seg ∷ [])
  window-IsSuffix true window run seg h = (run, refl)
  window-IsSuffix false window run seg h = IsSuffix-append window run (seg ∷ []) h

  -- Between two rounds: the chunk that is being filled holds the run `run`, of which the window is an
  -- end, and starts where the run does, or the next segment if the run is empty.
  pub record Invariant (run rest : List (Segment Time)) (w : Work Time) : Type 0 where
    pub raw : IsRaw run w.cur
    pub starts : StartsAt (run ++ rest) w.cur.start_time
    pub window_end : IsSuffix w.window run

  join_segment-Invariant :
      (run rest : List (Segment Time)) (w : Work Time) (seg : Segment Time)
      → Invariant run (seg ∷ rest) w
      → Invariant (run ++ seg ∷ []) rest (join_segment w seg)
  unfolding join_segment
  join_segment-Invariant run rest w seg h = record {
    raw = add_segment-IsRaw run w.cur seg h.raw;
    starts = rw (append_assoc run (seg ∷ []) rest) h.starts;
    window_end = window-IsSuffix _ w.window run seg h.window_end;
  }

  first_start-StartsAt :
      (kept rest : List (Segment Time)) (seg : Segment Time)
      → StartsAt (kept ++ seg ∷ rest) (first_start kept seg)
  first_start-StartsAt [] rest seg = refl
  first_start-StartsAt (k ∷ ks) rest seg = refl

  turn_over-Invariant :
      (zero_time : Time) (overlap : ℕ) (rest : List (Segment Time)) (w : Work Time)
      (seg : Segment Time)
      → Invariant (walk_back overlap w.window).0 (seg ∷ rest) (turn_over zero_time overlap w seg)
  unfolding turn_over
  turn_over-Invariant zero_time overlap rest w seg =
      let kept = (walk_back overlap w.window).0 in
      record {
        raw = add_segments-IsRaw [] kept _ (new_chunk-IsRaw zero_time (first_start kept seg));
        starts = rw (add_segments-start _ kept) (first_start-StartsAt kept rest seg);
        window_end = ([], refl);
      }

  trimmed : ℕ → Chunk Time → Chunk Time
  trimmed k cur = record cur { order = k; text = trim_space cur.text }

  flush_blank : (out : List (Chunk Time)) (cur : Chunk Time) → cur.tokens ≡ 0 → flush out cur ≡ out
  flush_blank out cur e = unfold flush in rw e refl

  flush_some :
      (out : List (Chunk Time)) (cur : Chunk Time)
      → 0 < cur.tokens
      → flush out cur ≡ out ++ trimmed (length out) cur ∷ []
  unfolding flush trimmed
  flush_some out cur h = let some : (cur.tokens == 0) ≡ false = ground arith in rw some refl

  StartsAt-head :
      (run rest : List (Segment Time)) (t : Time) → StartsAt (run ++ rest) t → StartsAt run t
  StartsAt-head [] rest t h = tt
  StartsAt-head (x ∷ xs) rest t h = h

  trimmed-IsChunk :
      (k : ℕ) (run rest : List (Segment Time)) (w : Work Time)
      → Invariant run rest w
      → 0 < w.cur.tokens
      → IsChunk k run (trimmed k w.cur)
  unfolding trimmed
  trimmed-IsChunk k run rest w h positive = record {
    numbered = refl;
    text_of = ap trim_space h.raw.text_of;
    tokens_total = h.raw.tokens_total;
    some_tokens = positive;
    starts = StartsAt-head run rest w.cur.start_time h.starts;
    ends = h.raw.ends;
  }

  join_segment-out : (w : Work Time) (seg : Segment Time) → (join_segment w seg).out ≡ w.out
  unfolding join_segment
  join_segment-out w seg = refl

  turn_over-out :
      (zero_time : Time) (overlap : ℕ) (w : Work Time) (seg : Segment Time)
      → (turn_over zero_time overlap w seg).out ≡ flush w.out w.cur
  turn_over-out zero_time overlap w seg = unfold turn_over in refl

  length-snoc :
      (out : List (Chunk Time)) (c : Chunk Time) → length (out ++ c ∷ []) ≡ suc (length out)
  length-snoc out c = omega (arith, length-append out (c ∷ []))

  module _ (zero_time : Time) (max_tokens overlap : ℕ) (w : Work Time) (seg : Segment Time) where
    abbrev overflows : Bool
    overflows = ltb 0 w.cur.tokens && ltb max_tokens (w.cur.tokens + tokens_of seg)

    abbrev flushed : Work Time
    flushed = join_segment (turn_over zero_time overlap w seg) seg

    round_over : overflows ≡ true → chunk_round zero_time max_tokens overlap w seg ≡ flushed
    round_over h = unfold chunk_round in rw h refl

    round_under :
        overflows ≡ false → chunk_round zero_time max_tokens overlap w seg ≡ join_segment w seg
    round_under h = unfold chunk_round in rw h refl

    flushed-out : overflows ≡ true → flushed.out ≡ w.out ++ trimmed (length w.out) w.cur ∷ []
    flushed-out h =
        join_segment-out (turn_over zero_time overlap w seg) seg
        ∙ (turn_over-out zero_time overlap w seg ∙ flush_some w.out w.cur (ground arith))

  module _ (zero_time : Time) (max_tokens overlap : ℕ) where
    abbrev Goal :
        List (Segment Time) → Work Time → List (Segment Time) → List (Segment Time) → Type 0
    Goal rest w prev fresh =
        (cs : List (Chunk Time)) × (chunk_loop zero_time max_tokens overlap w rest ≡ w.out ++ cs)
        × Cover (length w.out) prev (fresh ++ rest) cs

    -- At the end of the segments.
    loop_end :
        (w : Work Time) (prev ov fresh : List (Segment Time))
        → IsSuffix ov prev
        → Invariant (ov ++ fresh) [] w
        → Goal [] w prev fresh
    unfolding chunk_loop
    loop_end w prev ov fresh s h = elim (Bool-cases (w.cur.tokens == 0)) [
      | inl none_left ↦
          let z : w.cur.tokens ≡ 0 = ground arith in
          (
            [],
            flush_blank w.out w.cur z ∙ sym (append-nil w.out),
            stop (
                omega (arith, z, h.raw.tokens_total, total-append ov fresh, total-append fresh [])),
          )
      | inr some_left ↦ (
        trimmed (length w.out) w.cur ∷ [],
        flush_some w.out w.cur (ground arith),
        chunk ov fresh [] s refl
            (trimmed-IsChunk (length w.out) (ov ++ fresh) [] w h (ground arith)) (stop refl),
      )
    ]

    -- A round that flushes: one chunk, and what the loop appends from there on.
    loop_over :
        (seg : Segment Time) (rest : List (Segment Time)) (w : Work Time)
        (prev ov fresh : List (Segment Time))
        → IsSuffix ov prev
        → Invariant (ov ++ fresh) (seg ∷ rest) w
        → overflows zero_time max_tokens overlap w seg ≡ true
        → Goal rest (flushed zero_time max_tokens overlap w seg) (ov ++ fresh) (seg ∷ [])
        → Goal (seg ∷ rest) w prev fresh
    loop_over seg rest w prev ov fresh s h over (cs, e, cover) =
        let c = trimmed (length w.out) w.cur in
        let out = flushed-out zero_time max_tokens overlap w seg over in
        (
          c ∷ cs,
          unfold chunk_loop in
              (ap (λ t. chunk_loop zero_time max_tokens overlap t rest)
                  (round_over zero_time max_tokens overlap w seg over)
                ∙ (e ∙ (ap (λ t. t ++ cs) out ∙ append_assoc w.out (c ∷ []) cs))),
          chunk ov fresh (seg ∷ rest) s refl
              (trimmed-IsChunk (length w.out) (ov ++ fresh) (seg ∷ rest) w h (ground arith))
              (subst (λ k. Cover k (ov ++ fresh) (seg ∷ rest) cs)
                (ap length out ∙ length-snoc w.out c) cover),
        )

    loop_under :
        (seg : Segment Time) (rest : List (Segment Time)) (w : Work Time)
        (prev fresh : List (Segment Time))
        → overflows zero_time max_tokens overlap w seg ≡ false
        → Goal rest (join_segment w seg) prev (fresh ++ seg ∷ [])
        → Goal (seg ∷ rest) w prev fresh
    loop_under seg rest w prev fresh under (cs, e, cover) = (
      cs,
      unfold chunk_loop in
          (ap (λ t. chunk_loop zero_time max_tokens overlap t rest)
              (round_under zero_time max_tokens overlap w seg under)
            ∙ (e ∙ ap (λ t. t ++ cs) (join_segment-out w seg))),
      subst (λ r. Cover (length w.out) prev r cs) (append_assoc fresh (seg ∷ []) rest)
          (subst (λ t. Cover (length t) prev ((fresh ++ seg ∷ []) ++ rest) cs)
            (join_segment-out w seg) cover),
    )

    -- What the loop appends to `out`, from any point on, covers the segments that are not yet in `out`.
    chunk_loop-Cover :
        (rest : List (Segment Time)) (w : Work Time) (prev ov fresh : List (Segment Time))
        → IsSuffix ov prev
        → Invariant (ov ++ fresh) rest w
        → Goal rest w prev fresh
    chunk_loop-Cover [] w prev ov fresh s h = loop_end w prev ov fresh s h
    chunk_loop-Cover (seg ∷ rest) w prev ov fresh s h =
        elim (Bool-cases (overflows zero_time max_tokens overlap w seg)) [
          | inl over ↦
              let run = ov ++ fresh in
              let w1 = turn_over zero_time overlap w seg in
              let kept = (walk_back overlap w.window).0 in
              let suffix =
                IsSuffix-trans kept w.window run (walk_back-IsSuffix overlap w.window)
                  h.window_end in
              let h1 = turn_over-Invariant zero_time overlap rest w seg in
              loop_over seg rest w prev ov fresh s h over (
                chunk_loop-Cover rest (join_segment w1 seg) run kept (seg ∷ []) suffix
                  (join_segment-Invariant kept rest w1 seg h1))
          | inr under ↦
              let h1 = join_segment-Invariant (ov ++ fresh) rest w seg h in
              loop_under seg rest w prev fresh under (
                chunk_loop-Cover rest (join_segment w seg) prev ov (fresh ++ seg ∷ []) s (
                  subst (λ r. Invariant r rest (join_segment w seg))
                    (append_assoc ov fresh (seg ∷ [])) h1))
        ]

  -- The chunks cover the segments: each is a run of consecutive segments, trimmed and numbered from 0,
  -- with the times of its first and last segment and at least one token; its first segments repeat an
  -- end of the run before, and the others continue where that run ended. Only segments without tokens
  -- can be missing, behind the last chunk.
  pub split_into_chunks-Cover :
      (zero_time : Time) (segments : List (Segment Time)) (max_tokens overlap : ℤ)
      → Cover 0 [] segments (split_into_chunks zero_time segments max_tokens overlap)
  unfolding split_into_chunks
  split_into_chunks-Cover zero_time [] max_tokens overlap = stop refl
  split_into_chunks-Cover zero_time (seg ∷ segs) max_tokens overlap =
      let most = max_tokens_of max_tokens in
      let w : Work Time = record { out = []; cur = new_chunk zero_time seg.start; window = [] } in
      let (cs, e, cover) =
        chunk_loop-Cover zero_time most (overlap_of most overlap) (seg ∷ segs) w [] [] [] ([], refl)
          (record {
            raw = new_chunk-IsRaw zero_time seg.start;
            starts = refl;
            window_end = ([], refl);
          }) in
      subst (λ t. Cover 0 [] (seg ∷ segs) t) (sym e) cover
