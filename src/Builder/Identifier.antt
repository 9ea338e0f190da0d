-- ===== src/Builder/Identifier.antt =====
-- packages/agents/src/builder/index.ts: the identifiers, /^[A-Za-z0-9_.\/-]{1,128}$/.
use knolo_agents.Base.{
  ℕ, String, ◌≡◌, refl, Bool, true, false, ◌&&◌, ◌||◌, leb, eqb, length, every, Result, require,
}
use knolo_agents.Base.Text.{codes}
use knolo_agents.Builder.Errors.{DefinitionError, invalid_identifier}

between : ℕ → ℕ → ℕ → Bool
between lo hi c = leb lo c && leb c hi

is_identifier_code : ℕ → Bool
unfolding between
is_identifier_code c =
    between b'A' b'Z' c
    || between b'a' b'z' c
    || between b'0' b'9' c
    || eqb c b'_'
    || eqb c b'.'
    || eqb c b'/'
    || eqb c b'-'

-- identifier.test(value)
unfoldable pub is_identifier : String → Bool
unfolding is_identifier_code codes
is_identifier value =
    let cs = codes value in leb 1 (length cs) && leb (length cs) 128 && every is_identifier_code cs

unfoldable pub assert_identifier : String → String → Result DefinitionError (Unit {0})
unfolding is_identifier
assert_identifier value label = require (is_identifier value) (invalid_identifier label value)

identifier_tests :
    (is_identifier "graph-1/a.b_C" ≡ true)
    × (is_identifier "" ≡ false)
    × (is_identifier "two words" ≡ false)
unfolding is_identifier
identifier_tests = (refl, refl, refl)
