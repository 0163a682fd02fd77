-- ===== src/Summaries/Chunks.antt =====
-- `splitIntoChunks` of internals/summaries/openai.go.
use gotel_reserves.Base.{
  ℕ, zero, suc, ◌-◌, List, [], ◌∷◌, ◌==◌, nat_eq, if◌then◌else◌, leb, length, take, drop,
}

abbrev pub max_chunk_runes : ℕ
max_chunk_runes = 80_000

abbrev pub chunk_overlap : ℕ
chunk_overlap = 500

-- `maxSize - overlap`, and `maxSize` where that is not positive
abbrev pub step : ℕ → ℕ → ℕ
step max_size overlap = if max_size - overlap == 0 then max_size else max_size - overlap

module _ {ℓ} {A : Type ℓ} where
  -- The loop from `start` on, where `runes` is what stands from there on; a round of it per unit of
  -- fuel.
  unfoldable pub chunks_from : ℕ → ℕ → ℕ → List A → List (List A)
  chunks_from zero max_size stride runes = []
  chunks_from (suc fuel) max_size stride [] = []
  chunks_from (suc fuel) max_size stride (r ∷ rs) =
      let rest = chunks_from fuel max_size stride (drop stride (r ∷ rs)) in
      if leb (length (r ∷ rs)) max_size
      then take max_size (r ∷ rs) ∷ []
      else take max_size (r ∷ rs) ∷ rest

  unfoldable pub split_into_chunks : List A → ℕ → ℕ → List (List A)
  split_into_chunks runes max_size overlap =
      chunks_from (length runes) max_size (step max_size overlap) runes
