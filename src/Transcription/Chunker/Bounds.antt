-- ===== src/Transcription/Chunker/Bounds.antt =====
-- How many tokens a chunk has.
use memberclass_backend_gola.Common.{
  All-concat, ℕ, ◌+◌, ◌*◌, ◌≤◌, ◌≡◌, refl, ◌⊎◌, inl, inr, ◌&&◌, List, [], ◌∷◌, arith, ltb, ◌==◌,
  Bool-cases, All,
}
use memberclass_backend_gola.Common.Int.{ℤ}
use memberclass_backend_gola.Transcription.Chunker.{
  Segment, Chunk, Work, tokens_of, max_tokens_of, overlap_of, walk_back, add_segment, add_segments,
  first_start, flush, new_chunk, turn_over, join_segment, chunk_round, chunk_loop,
  split_into_chunks,
}
use memberclass_backend_gola.Transcription.Chunker.Runs.{total}

abbrev pub IsShort : {Time : Type 0} → ℕ → Segment Time → Type 0
IsShort longest seg = tokens_of seg ≤ longest

-- Within maxTokens, or the overlap and twice `longest`.
abbrev pub IsWithin : ℕ → ℕ → ℕ → ℕ → Type 0
IsWithin longest overlap most n = (n ≤ most) ⊎ (n ≤ overlap + 2 * longest)

module _ {Time : Type 0} where
  add_segments-tokens :
      (c : Chunk Time) (segs : List (Segment Time))
      → (add_segments c segs).tokens ≡ c.tokens + total segs
  unfolding add_segments
  add_segments-tokens c [] = omega arith
  add_segments-tokens c (seg ∷ segs) = omega (arith, add_segments-tokens (add_segment c seg) segs)

  module _ (longest overlap most : ℕ) where
    walk_back-IsShort :
        (segs : List (Segment Time))
        → All (IsShort longest) segs
        → All (IsShort longest) (walk_back overlap segs).0
          × (total (walk_back overlap segs).0 ≡ (walk_back overlap segs).1)
          × ((walk_back overlap segs).1 ≤ overlap + longest)
    unfolding walk_back
    walk_back-IsShort [] h = (tt, refl, omega arith)
    walk_back-IsShort (seg ∷ segs) (short, h) = ground (arith, walk_back-IsShort segs h)

    -- Between two rounds.
    record Bounded (w : Work Time) : Type 0 where
      within : IsWithin longest overlap most w.cur.tokens
      short : All (IsShort longest) w.window
      out_within : All (λ c. IsWithin longest overlap most c.tokens) w.out

    flush-IsWithin :
        (out : List (Chunk Time)) (cur : Chunk Time)
        → All (λ c. IsWithin longest overlap most c.tokens) out
        → IsWithin longest overlap most cur.tokens
        → All (λ c. IsWithin longest overlap most c.tokens) (flush out cur)
    unfolding flush
    flush-IsWithin out cur h p = elim (Bool-cases (cur.tokens == 0)) [
      | inl none_left ↦ rw none_left h
      | inr some_left ↦
          rw some_left (All-concat (λ c. IsWithin longest overlap most c.tokens) out _ h p)
    ]

    turn_over-IsShort :
        (zero_time : Time) (w : Work Time) (seg : Segment Time)
        → Bounded w
        → ((turn_over zero_time overlap w seg).cur.tokens ≤ overlap + longest)
          × All (IsShort longest) (turn_over zero_time overlap w seg).window
          × All
              (λ c. IsWithin longest overlap most c.tokens)
              (turn_over zero_time overlap w seg).out
    unfolding turn_over
    turn_over-IsShort zero_time w seg h =
        let kept = (walk_back overlap w.window).0 in
        let (short, sum, small) = walk_back-IsShort w.window h.short in
        (
          omega (
            arith,
            sum,
            small,
            add_segments-tokens (new_chunk zero_time (first_start kept seg)) kept,
          ),
          short,
          flush-IsWithin w.out w.cur h.out_within h.within,
        )

    join_segment-Bounded :
        (w : Work Time) (seg : Segment Time)
        → IsWithin longest overlap most (w.cur.tokens + tokens_of seg)
        → All (IsShort longest) w.window
        → All (λ c. IsWithin longest overlap most c.tokens) w.out
        → IsShort longest seg
        → Bounded (join_segment w seg)
    unfolding join_segment
    join_segment-Bounded w seg p short out s = record {
      within = p;
      short =
          elim (Bool-cases
            ((w.cur.order == 0) && (w.cur.tokens + tokens_of seg == tokens_of seg))) [
              | inl first ↦ rw first (s, tt)
              | inr later ↦ rw later (All-concat (IsShort longest) w.window seg short s)
            ];
      out_within = out;
    }

    chunk_round-Bounded :
        (zero_time : Time) (w : Work Time) (seg : Segment Time)
        → Bounded w
        → IsShort longest seg
        → Bounded (chunk_round zero_time most overlap w seg)
    chunk_round-Bounded zero_time w seg h s =
        elim (Bool-cases (ltb 0 w.cur.tokens && ltb most (w.cur.tokens + tokens_of seg))) [
          | inl over ↦
              let (small, short, out) = turn_over-IsShort zero_time w seg h in
              unfold chunk_round in
              rw over (
                join_segment-Bounded (turn_over zero_time overlap w seg) seg (inr (omega arith))
                  short out s)
          | inr under ↦
              unfold chunk_round in
              rw under (join_segment-Bounded w seg (ground arith) h.short h.out_within s)
        ]

    chunk_loop-IsWithin :
        (zero_time : Time) (segs : List (Segment Time)) (w : Work Time)
        → Bounded w
        → All (IsShort longest) segs
        → All
            (λ c. IsWithin longest overlap most c.tokens)
            (chunk_loop zero_time most overlap w segs)
    unfolding chunk_loop
    chunk_loop-IsWithin zero_time [] w h s = flush-IsWithin w.out w.cur h.out_within h.within
    chunk_loop-IsWithin zero_time (seg ∷ segs) w h s =
        chunk_loop-IsWithin zero_time segs (chunk_round zero_time most overlap w seg)
          (chunk_round-Bounded zero_time w seg h s.0) s.1

  -- Where no segment has more than `longest` tokens, a chunk has at most maxTokens, or at most the
  -- overlap and twice `longest`.
  pub split_into_chunks_bounded :
      (zero_time : Time) (segments : List (Segment Time)) (max_tokens overlap : ℤ) (longest : ℕ)
      → All (IsShort longest) segments
      → let most = max_tokens_of max_tokens in
        All
          (λ c. IsWithin longest (overlap_of most overlap) most c.tokens)
          (split_into_chunks zero_time segments max_tokens overlap)
  unfolding split_into_chunks
  split_into_chunks_bounded zero_time [] max_tokens overlap longest s = tt
  split_into_chunks_bounded zero_time (seg ∷ segs) max_tokens overlap longest s =
      let most = max_tokens_of max_tokens in
      chunk_loop-IsWithin longest (overlap_of most overlap) most zero_time (seg ∷ segs)
        (record { out = []; cur = new_chunk zero_time seg.start; window = [] })
        (record { within = inl (omega arith); short = tt; out_within = tt }) s
