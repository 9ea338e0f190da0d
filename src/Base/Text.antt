-- ===== src/Base/Text.antt =====
-- Text as the sources take it apart: by characters, at slashes, by concatenation.
use Prim.Native.Nat.{ℕ}
use Prim.Native.Char.{code}
use Prim.Native.String
use Prim.Native.String.{String}
use mathlib.Core.Bool.{Bool, true, false, ◌&&◌, ◌||◌}
use mathlib.Core.Path.{◌≡◌, refl}
use mathlib.Core.Option.{Option, none, some}
use mathlib.Core.List.{List, [], ◌∷◌, ◌++◌}
use knolo_agents.Base.Tests.{if◌then◌else◌, eqb, leb}

-- a + b
infixr 65 ◌^^◌
abbrev pub ◌^^◌ : String → String → String
s ^^ t = String.◌++◌ s t

-- The code points of a text.
unfoldable pub codes : String → List ℕ
codes String.[] = []
codes (String.◌∷◌ c s) = code c ∷ codes s

unfoldable pub starts_with_slash : String → Bool
starts_with_slash String.[] = false
starts_with_slash (String.◌∷◌ c s) = eqb (code c) b'/'

split_from : List String → String → String → List String
split_from parts current String.[] = parts ++ current ∷ []
split_from parts current (String.◌∷◌ c s) =
    let part_ends = eqb (code c) b'/' in
    split_from (if part_ends then parts ++ current ∷ [] else parts)
      (if part_ends then "" else current ^^ String.◌∷◌ c String.[]) s

-- s.split("/")
unfoldable pub split_slash : String → List String
unfolding split_from
split_slash s = split_from [] "" s

-- path.slice(1).split("/")
unfoldable pub path_segments : String → List String
unfolding split_slash
path_segments String.[] = split_slash ""
path_segments (String.◌∷◌ c s) = split_slash s

segments_of_nested_path : path_segments "/a/bc" ≡ "a" ∷ "bc" ∷ []
unfolding path_segments
segments_of_nested_path = refl

-- Whether a list of codes begins with another.
is_prefix : List ℕ → List ℕ → Bool
is_prefix [] text = true
is_prefix (c ∷ cs) [] = false
is_prefix (c ∷ cs) (d ∷ ds) = eqb c d && is_prefix cs ds

-- text.includes(needle), on the codes
unfoldable pub occurs : List ℕ → List ℕ → Bool
unfolding is_prefix
occurs needle [] = is_prefix needle []
occurs needle (c ∷ cs) = is_prefix needle (c ∷ cs) || occurs needle cs

-- \s
abbrev pub is_space : ℕ → Bool
is_space c =
    (leb 9 c && leb c 13)
    || eqb c 32
    || eqb c 160
    || eqb c 5760
    || (leb 8192 c && leb c 8202)
    || eqb c 8232
    || eqb c 8233
    || eqb c 8239
    || eqb c 8287
    || eqb c 12288
    || eqb c 65279

trim_start : List ℕ → List ℕ
trim_start [] = []
trim_start (c ∷ cs) = let rest = trim_start cs in if is_space c then rest else c ∷ cs

trim_end : List ℕ → List ℕ
trim_end [] = []
trim_end (c ∷ cs) = elim (trim_end cs) [
  | [] ↦ if is_space c then [] else c ∷ []
  | d ∷ ds ↦ c ∷ d ∷ ds
]

-- text.trim(), on the codes
unfoldable pub trimmed : List ℕ → List ℕ
unfolding trim_start trim_end
trimmed cs = trim_end (trim_start cs)

unfoldable pub same_codes : List ℕ → List ℕ → Bool
same_codes [] [] = true
same_codes (c ∷ cs) (d ∷ ds) = eqb c d && same_codes cs ds
same_codes _ _ = false

-- text.trim()
drop_spaces : String → String
drop_spaces String.[] = String.[]
drop_spaces (String.◌∷◌ c s) =
    let rest = drop_spaces s in if is_space (code c) then rest else String.◌∷◌ c s

drop_spaces_end : String → String
drop_spaces_end String.[] = String.[]
drop_spaces_end (String.◌∷◌ c s) = elim (drop_spaces_end s) [
  | String.[] ↦ if is_space (code c) then String.[] else String.◌∷◌ c String.[]
  | String.◌∷◌ d t ↦ String.◌∷◌ c (String.◌∷◌ d t)
]

unfoldable pub trim : String → String
unfolding drop_spaces drop_spaces_end
trim s = drop_spaces_end (drop_spaces s)

-- xs.join(separator)
join_after : String → String → List String → String
join_after separator joined [] = joined
join_after separator joined (x ∷ xs) = join_after separator (joined ^^ (separator ^^ x)) xs

unfoldable pub join : String → List String → String
unfolding join_after
join separator [] = ""
join separator (x ∷ xs) = join_after separator x xs

-- text.match(/[a-z0-9]{2,}/g): the runs of two or more such characters.
is_word_code : ℕ → Bool
is_word_code c = (leb b'0' c && leb c b'9') || (leb b'a' c && leb c b'z')

abbrev at_least_two : String → Bool
at_least_two (String.◌∷◌ c (String.◌∷◌ d s)) = true
at_least_two _ = false

words_from : List String → String → String → List String
unfolding is_word_code
words_from found current String.[] = if at_least_two current then found ++ current ∷ [] else found
words_from found current (String.◌∷◌ c s) =
    let in_word = is_word_code (code c) in
    words_from
      (if in_word then found else (if at_least_two current then found ++ current ∷ [] else found))
      (if in_word then current ^^ String.◌∷◌ c String.[] else "") s

unfoldable pub word_runs : String → List String
unfolding words_from
word_runs s = words_from [] "" s

word_runs_of_text : word_runs "ab c de1" ≡ "ab" ∷ "de1" ∷ []
unfolding word_runs
word_runs_of_text = refl

-- text.replace(/\s+/g, " "); the flag says that the space before was replaced.
squeeze : Bool → String → String
squeeze spaced String.[] = String.[]
squeeze spaced (String.◌∷◌ c s) =
    let rest = squeeze (is_space (code c)) s in
    if is_space (code c) then (if spaced then rest else " " ^^ rest) else String.◌∷◌ c rest

-- text.replace(/\s+/g, " ").trim()
unfoldable pub squeezed : String → String
unfolding squeeze trim
squeezed s = trim (squeeze false s)

-- text.includes(needle)
unfoldable pub text_includes : String → String → Bool
unfolding occurs codes
text_includes text needle = occurs (codes needle) (codes text)

without_prefix : String → String → Option String
without_prefix String.[] s = some s
without_prefix (String.◌∷◌ c p) String.[] = none
without_prefix (String.◌∷◌ c p) (String.◌∷◌ d s) =
    let rest = without_prefix p s in if eqb (code c) (code d) then rest else none

-- text.replace(/^prefix/, "")
unfoldable pub drop_prefix : String → String → String
unfolding without_prefix
drop_prefix prefix s = elim (without_prefix prefix s) [ none ↦ s | some rest ↦ rest ]

squeezed_text : squeezed "  a  b\n" ≡ "a b"
unfolding squeezed
squeezed_text = refl

dropped_prefix : drop_prefix "ab:" "ab:c" ≡ "c"
unfolding drop_prefix
dropped_prefix = refl
