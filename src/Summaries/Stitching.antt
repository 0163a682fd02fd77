-- ===== src/Summaries/Stitching.antt =====
-- What the chunks of a text have to do with the text (`splitIntoChunks` of
-- internals/summaries/openai.go).
use gotel_reserves.Base.{
  take_all, take-take, take-drop, drop-take, length-drop, length-take_le, ℕ, zero, suc, ◌+◌, ◌≤◌,
  ◌<◌, ◌≡◌, refl, ap, List, [], ◌∷◌, ◌++◌, arith, leb, leb→le, length, take, drop, All, Bool-cases,
  inl, inr, ◌∙◌, sym,
}
use gotel_reserves.Summaries.Chunks.{step, chunks_from, split_into_chunks}

module _ {ℓ} {A : Type ℓ} where
  -- The text again: of each chunk but the last, what comes before the next one starts.
  abbrev pub stitch : ℕ → List (List A) → List A
  stitch stride [] = []
  stitch stride (c ∷ []) = c
  stitch stride (c ∷ d ∷ cs) = take stride c ++ stitch stride (d ∷ cs)

  -- Each chunk ends with the runes that the next one starts with, `overlap` of them.
  abbrev pub Overlap : ℕ → ℕ → List (List A) → Type ℓ
  Overlap stride overlap [] = Unit
  Overlap stride overlap (c ∷ []) = Unit
  Overlap stride overlap (c ∷ d ∷ cs) =
      (drop stride c ≡ take overlap d) × Overlap stride overlap (d ∷ cs)

  stitch_cons :
      (stride : ℕ) (c rest : List A) (cs : List (List A))
      → stitch stride cs ≡ rest
      → 0 < length rest
      → stitch stride (c ∷ cs) ≡ take stride c ++ rest
  stitch_cons stride c rest [] e h = ground arith
  stitch_cons stride c rest (d ∷ cs) e h = ap (λ l. take stride c ++ l) e

  stitch-chunks_from :
      (fuel max_size stride : ℕ) (runes : List A)
      → 0 < stride
      → stride ≤ max_size
      → length runes ≤ fuel
      → stitch stride (chunks_from fuel max_size stride runes) ≡ runes
  unfolding chunks_from
  stitch-chunks_from zero n k [] p h e = refl
  stitch-chunks_from zero n k (r ∷ rs) p h e = ground arith
  stitch-chunks_from (suc fuel) n k [] p h e = refl
  stitch-chunks_from (suc fuel) n k (r ∷ rs) p h e = elim (Bool-cases (leb (length (r ∷ rs)) n)) [
    | inl last ↦ rw last (take_all n (r ∷ rs) (leb→le (length (r ∷ rs)) n last))
    | inr more ↦ rw more (
        stitch_cons k (take n (r ∷ rs)) (drop k (r ∷ rs)) _
          (stitch-chunks_from fuel n k (drop k (r ∷ rs)) p h
            (omega (arith, length-drop k (r ∷ rs))))
          (ground (arith, length-drop k (r ∷ rs)))
        ∙ ap (λ l. l ++ drop k (r ∷ rs)) (take-take k n (r ∷ rs) h)
        ∙ take-drop k (r ∷ rs))
  ]

  -- The first chunk of a text is its first runes.
  chunks_from-head :
      (fuel max_size stride : ℕ) (runes d : List A) (cs : List (List A))
      → chunks_from fuel max_size stride runes ≡ d ∷ cs
      → d ≡ take max_size runes
  unfolding chunks_from
  chunks_from-head zero n k runes d cs e = cc
  chunks_from-head (suc fuel) n k [] d cs e = cc
  chunks_from-head (suc fuel) n k (r ∷ rs) d cs e = ground arith

  Overlap-cons :
      (stride overlap max_size : ℕ) (runes : List A) (cs : List (List A))
      → stride + overlap ≡ max_size
      → Overlap stride overlap cs
      → ((d : List A) (ds : List (List A)) → cs ≡ d ∷ ds → d ≡ take max_size (drop stride runes))
      → Overlap stride overlap (take max_size runes ∷ cs)
  Overlap-cons k o n runes [] s rest first = tt
  Overlap-cons k o n runes (d ∷ cs) s rest first = (
    drop-take k n o runes s
        ∙ sym (ap (take o) (first d cs refl) ∙ take-take o n (drop k runes) (omega arith)),
    rest,
  )

  chunks_from-Overlap :
      (fuel max_size stride overlap : ℕ) (runes : List A)
      → stride + overlap ≡ max_size
      → Overlap stride overlap (chunks_from fuel max_size stride runes)
  unfolding chunks_from
  chunks_from-Overlap zero n k o runes s = tt
  chunks_from-Overlap (suc fuel) n k o [] s = tt
  chunks_from-Overlap (suc fuel) n k o (r ∷ rs) s = elim (Bool-cases (leb (length (r ∷ rs)) n)) [
    | inl last ↦ rw last tt
    | inr more ↦ rw more (
        Overlap-cons k o n (r ∷ rs) _ s (chunks_from-Overlap fuel n k o (drop k (r ∷ rs)) s)
          (λ d ds e. chunks_from-head fuel n k (drop k (r ∷ rs)) d ds e))
  ]

  chunks_from-short :
      (fuel max_size stride : ℕ) (runes : List A)
      → All (λ c. length c ≤ max_size) (chunks_from fuel max_size stride runes)
  unfolding chunks_from
  chunks_from-short zero n k runes = tt
  chunks_from-short (suc fuel) n k [] = tt
  chunks_from-short (suc fuel) n k (r ∷ rs) = elim (Bool-cases (leb (length (r ∷ rs)) n)) [
    | inl last ↦ rw last (length-take_le n (r ∷ rs), tt)
    | inr more ↦ rw more (length-take_le n (r ∷ rs), chunks_from-short fuel n k (drop k (r ∷ rs)))
  ]

  -- Splitting loses nothing and invents nothing: for a positive size and any overlap the loop comes to
  -- its end, no chunk is longer than the size, and the chunks, each cut where the next one starts, are
  -- the text.
  pub stitch-split_into_chunks :
      (runes : List A) (max_size overlap : ℕ)
      → 0 < max_size
      → All (λ c. length c ≤ max_size) (split_into_chunks runes max_size overlap)
        × (stitch (step max_size overlap) (split_into_chunks runes max_size overlap) ≡ runes)
  unfolding split_into_chunks
  stitch-split_into_chunks runes n o p = (
    chunks_from-short (length runes) n (step n o) runes,
    stitch-chunks_from (length runes) n (step n o) runes (ground arith) (ground arith)
        (omega arith),
  )

  -- Each chunk ends with the runes that the next one starts with, as many as the overlap says, where
  -- the overlap is smaller than the size.
  pub split_into_chunks-Overlap :
      (runes : List A) (max_size overlap : ℕ)
      → overlap < max_size
      → Overlap (step max_size overlap) overlap (split_into_chunks runes max_size overlap)
  unfolding split_into_chunks
  split_into_chunks-Overlap runes n o p =
      chunks_from-Overlap (length runes) n (step n o) o runes (ground arith)
