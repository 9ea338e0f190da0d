-- ===== src/Context/Rank.antt =====
-- packages/agents/src/context/compiler.ts: how the items of a context are ranked. `locale_le` is the order of
-- `localeCompare`; the first three parameters are those of the lexical score.
use knolo_agents.Base.{
  ℕ, ◌*◌, String, Bool, true, false, not, ◌&&◌, ◌||◌, Option, none, some, List, [], ◌∷◌, ◌++◌, map,
  filter, find, includes, ltb, eqb, Result, ok, if◌then◌else◌,
}
use Prim.Native.Nat.{◌^◌}
use knolo_agents.Base.Sort.{sort_by}
use knolo_agents.Base.Text.{◌^^◌, text_includes}
use knolo_agents.Builder.{or_default}
use knolo_agents.Context.Budget.{Decimal, RankedContextItem, evidence, constraint, skill, memory}
use knolo_agents.Context.Lexical.{lexical_score}
use knolo_agents.Context.Types.{EvidenceItem, MemoryItem, SkillItem, Given, absent, listed, source}
use knolo_agents.Dependencies.Root.{nonempty}
use knolo_agents.Harness.Types.{HarnessError, Constraint}

below_zero : Decimal → Bool
below_zero a = a.negative && not (eqb a.digits 0)

-- a < b, as numbers
unfoldable pub decimal_lt : Decimal → Decimal → Bool
unfolding below_zero
decimal_lt a b =
    let left = a.digits * 10 ^ b.scale in
    let right = b.digits * 10 ^ a.scale in
    if below_zero a
    then (if below_zero b then ltb right left else true)
    else if below_zero b
    then false
    else ltb left right

abbrev natural : ℕ → Decimal
natural n = record { negative = false; digits = n; scale = 0 }

module _ (lower : String → String) (per_million : ℕ → ℕ → ℕ)
    (locale_le : String → String → Bool) where
  -- compareRank(left, right) <= 0
  unfoldable pub rank_le : RankedContextItem → RankedContextItem → Bool
  unfolding decimal_lt
  rank_le l r =
      decimal_lt r.score l.score || (not (decimal_lt l.score r.score) && locale_le l.id r.id)

  -- item.score ?? lexicalScore(query, item.text)
  unfoldable pub score_of : String → String → Option Decimal → Decimal
  unfolding lexical_score
  score_of query text score =
      or_default score (natural (lexical_score lower per_million query text))

  -- item.required === true
  abbrev pub is_required : Option Bool → Bool
  is_required required = or_default required false

  unfoldable pub ranked_evidence : String → EvidenceItem → RankedContextItem
  unfolding score_of nonempty
  ranked_evidence query item = record {
    kind = evidence;
    id = item.id;
    text = item.text;
    score = score_of query item.text item.score;
    required = is_required item.required;
    source_id = nonempty item.source_id;
  }

  unfoldable pub ranked_constraint : Constraint → RankedContextItem
  ranked_constraint c = record {
    kind = constraint;
    id = c.id;
    text = c.description;
    score = natural 0;
    required = true;
    source_id = none;
  }

  unfoldable pub ranked_skill : String → SkillItem → RankedContextItem
  unfolding score_of nonempty
  ranked_skill query item = record {
    kind = skill;
    id = item.id;
    text = item.text;
    score = score_of query item.text item.score;
    required = is_required item.required;
    source_id = nonempty item.source_id;
  }

  unfoldable pub ranked_memory : String → MemoryItem → RankedContextItem
  unfolding score_of
  ranked_memory query item = record {
    kind = memory;
    id = item.id;
    text = item.text;
    score = score_of query item.text item.score;
    required = false;
    source_id = none;
  }

  -- Number(right.required) - Number(left.required) || compareRank(left, right), not above 0
  unfoldable pub skill_le : RankedContextItem → RankedContextItem → Bool
  unfolding rank_le
  skill_le l r =
      (l.required && not r.required) || (not (r.required && not l.required) && rank_le l r)

  unfoldable pub resolve_evidence :
      Given EvidenceItem → String → Result HarnessError (List EvidenceItem)
  unfolding score_of
  resolve_evidence absent query = ok []
  resolve_evidence (listed items) query =
      ok (
        map (λ (i : EvidenceItem). record i { score = some (score_of query i.text i.score) }) items)
  resolve_evidence (source ask) query = ask query

  unfoldable pub resolve_memories :
      Given MemoryItem → String → Result HarnessError (List MemoryItem)
  unfolding score_of
  resolve_memories absent query = ok []
  resolve_memories (listed items) query =
      ok (map (λ (i : MemoryItem). record i { score = some (score_of query i.text i.score) }) items)
  resolve_memories (source ask) query = ask query

  evidence_hay : EvidenceItem → String
  evidence_hay item =
      lower (item.id ^^ (" " ^^ (or_default item.source_id "" ^^ (" " ^^ item.text))))

  made_required : EvidenceItem → EvidenceItem
  made_required item = record item { required = some true }

  -- The first need that is not claimed and stands in the text, if it is not empty.
  match_of : List String → List String → String → Option String
  unfolding text_includes nonempty
  match_of needed claimed hay =
      nonempty (find (λ need. not (includes claimed need) && text_includes hay need) needed)

  matched_item : EvidenceItem → Option String → EvidenceItem
  unfolding made_required
  matched_item item none = item
  matched_item item (some need) = made_required item

  claimed_after : List String → Option String → List String
  claimed_after claimed none = claimed
  claimed_after claimed (some need) = claimed ++ need ∷ []

  mark_items : List String → List String → List EvidenceItem → List EvidenceItem
  unfolding evidence_hay text_includes made_required match_of matched_item claimed_after
  mark_items needed claimed [] = []
  mark_items needed claimed (item ∷ items) =
      let hay = evidence_hay item in
      let found = match_of needed claimed hay in
      let rest =
        mark_items needed
          (if is_required item.required
            then claimed ++ filter (λ need. text_includes hay need) needed
            else claimed_after claimed found)
          items in
      (if is_required item.required then made_required item else matched_item item found) ∷ rest

  unfoldable pub mark_required : List EvidenceItem → List String → List EvidenceItem
  unfolding mark_items
  mark_required items [] = items
  mark_required items (r ∷ requirements) = mark_items (map lower (r ∷ requirements)) [] items

  unfoldable pub required_evidence : List EvidenceItem → String → List RankedContextItem
  unfolding ranked_evidence sort_by
  required_evidence items query =
      sort_by (λ (l : RankedContextItem) (r : RankedContextItem). locale_le l.id r.id)
        (map (ranked_evidence query) (filter (λ (i : EvidenceItem). is_required i.required) items))

  unfoldable pub rest_evidence : List EvidenceItem → String → Bool → List RankedContextItem
  unfolding ranked_evidence sort_by rank_le
  rest_evidence items query preserve_order =
      let rest =
        map (ranked_evidence query)
          (filter (λ (i : EvidenceItem). not (is_required i.required)) items) in
      if preserve_order then rest else sort_by rank_le rest
