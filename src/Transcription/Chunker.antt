-- ===== src/Transcription/Chunker.antt =====
-- internal/features/workers/transcription/chunker.go. The timestamps are only copied: their type is a
-- parameter, with the zero value of a new chunk.
pub mod Runs
pub mod Bounds
mod Examples
use memberclass_backend_gola.Common.{
  ℕ, zero, suc, ◌+◌, ◌-◌, ◌*◌, ◌/◌, ◌%◌, ◌^◌, ◌≤◌, ◌<◌, min, String, ◌≡◌, refl, sym, ap, ◌∙◌,
  ◌≡⟨◌⟩◌, ◌∎, ◌≢◌, ◌↔◌, ◌⊎◌, inl, inr, Bool, true, false, not, ◌&&◌, ◌||◌, Option, none, some, List,
  [], ◌∷◌, ◌++◌, map, append-nil, append_assoc, arith, ltb, leb, ◌==◌, if◌then◌else◌, Bool-cases,
  Option-cases, is_some, ==_iff, ltb→lt, lt→ltb, leb→le, le→leb, length, take, drop, replicate, All,
  All-take, All-filter_by, All-implies, filter_by, length-append, length-take, length-drop,
  take-append-drop, GoString, str, ◌===◌, text_eq_refl, text_eq_iff, is_empty, until, split,
  is_space, trim_left, trim_right, trim_space, to_lower_byte, to_lower,
}
use memberclass_backend_gola.Common.Int.{
  ℤ, pos, negsuc, pos_part, neg_part, sub_ℕ, ltb_ℤ, ◌≤ℤ◌, half_64, mod_64, wrap_sub, ◌+64◌, ◌-64◌,
  Fits, wrap_sub-pos, wrap_sub-negsuc, +64_pos, -64_pos, -64_negsuc,
}
use memberclass_backend_gola.Common.Decimal.{
  format_nat, format_int, parse_int, parse_int-format_int,
}

-- strings.Fields, its length: the words of a text, for white space in ASCII. The flag tells whether
-- the byte before belongs to a word.
unfoldable pub count_words : Bool → GoString → ℕ
count_words inside [] = 0
count_words inside (c ∷ cs) =
    let rest = count_words (not (is_space c)) cs in if is_space c || inside then rest else 1 + rest

unfoldable pub approx_tokens : GoString → ℕ
unfolding count_words
approx_tokens s = count_words false s * 13 / 10

-- What becomes of the arguments maxTokens and overlap.
abbrev pub max_tokens_of : ℤ → ℕ
max_tokens_of (pos n) = if n == 0 then 1 else n
max_tokens_of (negsuc n) = 1

abbrev pub overlap_of : ℕ → ℤ → ℕ
overlap_of max_tokens (pos n) = if leb max_tokens n then max_tokens - 1 else n
overlap_of max_tokens (negsuc n) = 0

-- whisperSegment of openai.go
pub record Segment (Time : Type 0) : Type 0 where
  pub start : Time
  pub end : Time
  pub text : GoString

pub record Chunk (Time : Type 0) : Type 0 where
  pub order : ℕ
  pub text : GoString
  pub start_time : Time
  pub end_time : Time
  pub tokens : ℕ

-- The variables of the loop; `window` is segments[curFirst:i].
pub record Work (Time : Type 0) : Type 0 where
  pub out : List (Chunk Time)
  pub cur : Chunk Time
  pub window : List (Segment Time)

abbrev pub blank : GoString
blank = str " "

-- segTokens[i]
abbrev pub tokens_of : {Time : Type 0} → Segment Time → ℕ
tokens_of seg = approx_tokens seg.text

module _ {Time : Type 0} where
  -- The walk back over the window from its end, while fewer than `overlap` tokens are carried: the
  -- segments from `carry` on, and `carried`.
  unfoldable pub walk_back : ℕ → List (Segment Time) → List (Segment Time) × ℕ
  walk_back overlap [] = ([], 0)
  walk_back overlap (seg ∷ segs) =
      let (kept, carried) = walk_back overlap segs in
      if ltb carried overlap then (seg ∷ kept, carried + tokens_of seg) else (kept, carried)

  -- `cur.Text += …; cur.Tokens += …; cur.EndTime = …`
  unfoldable pub add_segment : Chunk Time → Segment Time → Chunk Time
  add_segment cur seg = record cur {
    text = cur.text ++ (seg.text ++ blank);
    tokens = cur.tokens + tokens_of seg;
    end_time = seg.end;
  }

  unfoldable pub add_segments : Chunk Time → List (Segment Time) → Chunk Time
  unfolding add_segment
  add_segments cur [] = cur
  add_segments cur (seg ∷ segs) = add_segments (add_segment cur seg) segs

  -- segments[carry].Start, where carry is i if nothing is carried
  abbrev pub first_start : List (Segment Time) → Segment Time → Time
  first_start [] seg = seg.start
  first_start (kept ∷ _) seg = kept.start

  -- flush: what it appends to `out`
  unfoldable pub flush : List (Chunk Time) → Chunk Time → List (Chunk Time)
  flush out cur =
      if cur.tokens == 0
      then out
      else out ++ record cur { order = length out; text = trim_space cur.text } ∷ []

  unfoldable pub new_chunk : Time → Time → Chunk Time
  new_chunk zero_time start = record {
    order = 0;
    text = [];
    start_time = start;
    end_time = zero_time;
    tokens = 0;
  }

  -- The branch of the overflow: flush, and start a chunk with the tail of the one before.
  unfoldable pub turn_over : Time → ℕ → Work Time → Segment Time → Work Time
  unfolding walk_back add_segments flush new_chunk
  turn_over zero_time overlap w seg =
      let (kept, carried) = walk_back overlap w.window in
      record {
        out = flush w.out w.cur;
        cur = add_segments (new_chunk zero_time (first_start kept seg)) kept;
        window = kept;
      }

  -- The rest of the round: the segment joins the chunk. If it is the chunk's first, curFirst is i.
  unfoldable pub join_segment : Work Time → Segment Time → Work Time
  unfolding add_segment
  join_segment w seg =
      let cur = add_segment w.cur seg in
      record {
        out = w.out;
        cur = cur;
        window =
            (if (cur.order == 0) && (cur.tokens == tokens_of seg) then [] else w.window)
            ++ seg ∷ [];
      }

  unfoldable pub chunk_round : Time → ℕ → ℕ → Work Time → Segment Time → Work Time
  unfolding turn_over join_segment
  chunk_round zero_time max_tokens overlap w seg =
      join_segment
        (if ltb 0 w.cur.tokens && ltb max_tokens (w.cur.tokens + tokens_of seg)
          then turn_over zero_time overlap w seg
          else w)
        seg

  unfoldable pub chunk_loop : Time → ℕ → ℕ → Work Time → List (Segment Time) → List (Chunk Time)
  unfolding chunk_round flush
  chunk_loop zero_time max_tokens overlap w [] = flush w.out w.cur
  chunk_loop zero_time max_tokens overlap w (seg ∷ segs) =
      chunk_loop zero_time max_tokens overlap (chunk_round zero_time max_tokens overlap w seg) segs

  unfoldable pub split_into_chunks : Time → List (Segment Time) → ℤ → ℤ → List (Chunk Time)
  unfolding chunk_loop new_chunk
  split_into_chunks zero_time [] max_tokens overlap = []
  split_into_chunks zero_time (seg ∷ segs) max_tokens overlap =
      let most = max_tokens_of max_tokens in
      chunk_loop zero_time most (overlap_of most overlap)
        (record { out = []; cur = new_chunk zero_time seg.start; window = [] }) (seg ∷ segs)
