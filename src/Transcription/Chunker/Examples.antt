-- ===== src/Transcription/Chunker/Examples.antt =====
-- Chunks of short transcripts; the times are numbers.
use memberclass_backend_gola.Common.{
  ℕ, ◌+◌, String, ◌≡◌, refl, List, [], ◌∷◌, arith, All, str, trim_space,
}
use memberclass_backend_gola.Common.Int.{pos}
use memberclass_backend_gola.Transcription.Chunker.{Segment, approx_tokens, split_into_chunks}
use memberclass_backend_gola.Transcription.Chunker.Bounds.{IsWithin, split_into_chunks_bounded}
use memberclass_backend_gola.Transcription.Chunker.Runs.{Cover, split_into_chunks-Cover}

abbrev seg : ℕ → String → Segment ℕ
seg t text = record { start = t; end = t + 1; text = str text }

abbrev talk : List (Segment ℕ)
talk = seg 0 "um dois" ∷ seg 1 "tres quatro" ∷ seg 2 "cinco seis" ∷ []

-- Two tokens a segment; four fit, two are repeated.
talk_chunks :
    split_into_chunks 0 talk (pos 4) (pos 1)
    ≡ record {
      order = 0;
      text = str "um dois tres quatro";
      start_time = 0;
      end_time = 2;
      tokens = 4;
    }
      ∷ record {
        order = 1;
        text = str "tres quatro cinco seis";
        start_time = 1;
        end_time = 3;
        tokens = 4;
      }
      ∷ []
unfolding split_into_chunks approx_tokens trim_space
talk_chunks = refl

split_into_chunks-Cover_example : Cover 0 [] talk (split_into_chunks 0 talk (pos 4) (pos 1))
split_into_chunks-Cover_example = split_into_chunks-Cover 0 talk (pos 4) (pos 1)

split_into_chunks_bounded_example :
    All (λ c. IsWithin 2 1 4 c.tokens) (split_into_chunks 0 talk (pos 4) (pos 1))
unfolding approx_tokens
split_into_chunks_bounded_example = split_into_chunks_bounded 0 talk (pos 4) (pos 1) 2 (omega arith)
