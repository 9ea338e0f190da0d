-- ===== src/Context/Lexical.antt =====
-- packages/agents/src/context/lexical.ts. `lower` is `toLowerCase`.
use knolo_agents.Base.{
  ℕ, ◌+◌, String, Bool, true, ◌||◌, List, [], ◌∷◌, any, ◌==◌, if◌then◌else◌, includes, length,
  unique,
}
use knolo_agents.Base.Text.{squeezed, text_includes, word_runs}

-- How many of the terms stand in the text.
unfoldable pub hits : List String → List String → ℕ
hits [] haystack = 0
hits (term ∷ terms) haystack = (if includes haystack term then 1 else 0) + hits terms haystack

module _ (lower : String → String) where
  unfoldable pub normalize_text : String → String
  unfolding squeezed
  normalize_text text = squeezed (lower text)

  unfoldable pub overlaps : String → String → Bool
  unfolding normalize_text text_includes
  overlaps needle item =
      let hay = normalize_text item in
      hay == needle || (text_includes hay needle || text_includes needle hay)

  unfoldable pub is_redundant : String → List String → Bool
  unfolding normalize_text overlaps
  is_redundant candidate selected =
      let needle = normalize_text candidate in
      if needle == "" then true else any (overlaps needle) selected

  unfoldable pub tokenize : String → List String
  unfolding word_runs
  tokenize text = word_runs (lower text)

  module _ (per_million : ℕ → ℕ → ℕ) where
    -- `per_million` is Math.round((hits / terms) * 1_000_000), in floating-point numbers.
    scored : List String → List String → ℕ
    unfolding hits
    scored [] haystack = 0
    scored (term ∷ terms) haystack =
        per_million (hits (term ∷ terms) haystack) (length (term ∷ terms))

    unfoldable pub lexical_score : String → String → ℕ
    unfolding tokenize scored unique
    lexical_score query text = scored (unique (tokenize query)) (tokenize text)
