-- ===== src/Capabilities/Index/Sound.antt =====
-- What the index keeps to.
use mathlib.Core.Path.{subst}
use knolo_agents.Base.{
  String, ◌≡◌, refl, sym, ◌∙◌, Bool, true, false, Option, none, some, List, [], ◌∷◌, any, Has, ok,
  err, Result, ◌==◌, Bool-cases, inl, inr, str_eq→eq,
}
use knolo_agents.Base.Dict.{
  get_key, put_key, has_key, has_key-eq-false, get_key-put_key_same, get_key-put_key_other,
}
use knolo_agents.Harness.Types.{HarnessError}
use knolo_agents.Skills.Types.{SkillDefinitionInput}
use knolo_agents.Capabilities.Index.{
  CapabilityMetadata, IndexedSkill, CapabilityIndex, empty, add_skills, enter_pack, add, try_add,
  find_skill, Change, adding, trying, change_all,
}

-- An indexed skill stands under its own id, and belongs to a pack of the index.
pub record IsIn (index : CapabilityIndex) (key : String) (entry : IndexedSkill) : Type 0 where
  pub same_id : entry.skill.id ≡ key
  pub metadata : CapabilityMetadata
  pub pack_found : get_key entry.pack_id index.packs ≡ some metadata
  pub of_pack : Has entry.skill metadata.skills

abbrev pub IsIndexed : CapabilityIndex → Type 0
IsIndexed index =
    (key : String) (entry : IndexedSkill)
    → get_key key index.by_skill_id ≡ some entry
    → IsIn index key entry

entry_of_pack : String → SkillDefinitionInput → IndexedSkill
entry_of_pack pack s = record { skill = s; pack_id = pack }

with_skill : String → SkillDefinitionInput → CapabilityIndex → CapabilityIndex
unfolding entry_of_pack
with_skill pack s index = record index {
  by_skill_id = put_key s.id (entry_of_pack pack s) index.by_skill_id;
}

with_skill-IsIndexed :
    (pack : String) (s : SkillDefinitionInput) (m : CapabilityMetadata) (index : CapabilityIndex)
    → get_key pack index.packs ≡ some m
    → Has s m.skills
    → IsIndexed index
    → IsIndexed (with_skill pack s index)
unfolding with_skill entry_of_pack
with_skill-IsIndexed pack s m index p h i key entry found = elim (Bool-cases (s.id == key)) [
  | inl e ↦
      let own : entry_of_pack pack s ≡ entry = cc (
        found,
        str_eq→eq s.id key e,
        get_key-put_key_same s.id (entry_of_pack pack s) index.by_skill_id,
      ) in
      subst (λ x. IsIn (with_skill pack s index) key x) own
        (record { same_id = str_eq→eq s.id key e; metadata = m; pack_found = p; of_pack = h })
  | inr n ↦
      let old =
        i key entry (
          sym (get_key-put_key_other s.id key (entry_of_pack pack s) index.by_skill_id n)
          ∙ found) in
      record {
        same_id = old.same_id;
        metadata = old.metadata;
        pack_found = old.pack_found;
        of_pack = old.of_pack;
      }
]

add_skills-IsIndexed :
    (pack : String) (skills : List SkillDefinitionInput) (m : CapabilityMetadata)
    (index : CapabilityIndex)
    → get_key pack index.packs ≡ some m
    → ((s : SkillDefinitionInput) → Has s skills → Has s m.skills)
    → IsIndexed index
    → IsIndexed (add_skills pack skills index).0
unfolding add_skills with_skill entry_of_pack
add_skills-IsIndexed pack [] m index p all i = i
add_skills-IsIndexed pack (s ∷ rest) m index p all i =
    elim (Bool-cases (has_key s.id index.by_skill_id)) [
      | inl e ↦ rw e i
      | inr n ↦ rw n (
          add_skills-IsIndexed pack rest m (with_skill pack s index) p (λ x h. all x (inr h))
            (with_skill-IsIndexed pack s m index p (all s (inl refl)) i))
    ]

enter_pack-IsIndexed :
    (m : CapabilityMetadata) (index : CapabilityIndex)
    → has_key m.pack_id index.packs ≡ false
    → IsIndexed index
    → IsIndexed (enter_pack m index)
unfolding enter_pack
enter_pack-IsIndexed m index n i key entry found =
    let old = i key entry found in
    record {
      same_id = old.same_id;
      metadata = old.metadata;
      pack_found = elim (Bool-cases (m.pack_id == entry.pack_id)) [
        | inl e ↦ cc (
          old.pack_found,
          str_eq→eq m.pack_id entry.pack_id e,
          has_key-eq-false m.pack_id index.packs n,
        )
        | inr d ↦ get_key-put_key_other m.pack_id entry.pack_id m index.packs d ∙ old.pack_found
      ];
      of_pack = old.of_pack;
    }

pack_entered :
    (m : CapabilityMetadata) (index : CapabilityIndex)
    → get_key m.pack_id (enter_pack m index).packs ≡ some m
unfolding enter_pack
pack_entered m index = get_key-put_key_same m.pack_id m index.packs

loaded-IsIndexed :
    (m : CapabilityMetadata) (index : CapabilityIndex)
    → has_key m.pack_id index.packs ≡ false
    → IsIndexed index
    → IsIndexed (add_skills m.pack_id m.skills (enter_pack m index)).0
loaded-IsIndexed m index n i =
    add_skills-IsIndexed m.pack_id m.skills m (enter_pack m index) (pack_entered m index) (λ s h. h)
      (enter_pack-IsIndexed m index n i)

add-IsIndexed :
    (m : CapabilityMetadata) (index : CapabilityIndex) → IsIndexed index → IsIndexed (add m index).0
unfolding add
add-IsIndexed m index i = elim (Bool-cases (has_key m.pack_id index.packs)) [
  | inl e ↦ rw e i
  | inr n ↦ rw n (loaded-IsIndexed m index n i)
]

try_add-IsIndexed :
    (m : CapabilityMetadata) (index : CapabilityIndex)
    → IsIndexed index
    → IsIndexed (try_add m index).0
unfolding try_add add
try_add-IsIndexed m index i = elim (Bool-cases (has_key m.pack_id index.packs)) [
  | inl e ↦ rw e i
  | inr n ↦
      elim (Bool-cases
        (any (λ (s : SkillDefinitionInput). has_key s.id index.by_skill_id) m.skills)) [
          | inl e ↦ rw (n, e) i
          | inr d ↦ rw (n, d) (loaded-IsIndexed m index n i)
        ]
]

change_all-IsIndexed_from :
    (changes : List Change) (index : CapabilityIndex)
    → IsIndexed index
    → IsIndexed (change_all changes index)
unfolding change_all
change_all-IsIndexed_from [] index i = i
change_all-IsIndexed_from (adding m ∷ rest) index i =
    change_all-IsIndexed_from rest _ (add-IsIndexed m index i)
change_all-IsIndexed_from (trying m ∷ rest) index i =
    change_all-IsIndexed_from rest _ (try_add-IsIndexed m index i)

-- After any calls of `add` and `tryAdd` on an empty index, those that threw half-way included, a
-- skill that is found under an id has that id, and its pack is in the index and holds it.
pub change_all-IsIndexed : (changes : List Change) → IsIndexed (change_all changes empty)
unfolding empty get_key
change_all-IsIndexed changes = change_all-IsIndexed_from changes empty (λ key entry h. cc h)

-- A skill that is indexed stays so.
add_skills-kept :
    (pack : String) (skills : List SkillDefinitionInput) (index : CapabilityIndex) (key : String)
    (entry : IndexedSkill)
    → get_key key index.by_skill_id ≡ some entry
    → get_key key (add_skills pack skills index).0.by_skill_id ≡ some entry
unfolding add_skills with_skill entry_of_pack
add_skills-kept pack [] index key entry h = h
add_skills-kept pack (s ∷ rest) index key entry h =
    elim (Bool-cases (has_key s.id index.by_skill_id)) [
      | inl e ↦ rw e h
      | inr n ↦ rw n (
          add_skills-kept pack rest (with_skill pack s index) key entry
            (elim (Bool-cases (s.id == key)) [
              | inl same ↦
                  cc (h, str_eq→eq s.id key same, has_key-eq-false s.id index.by_skill_id n)
              | inr d ↦
                  get_key-put_key_other s.id key (entry_of_pack pack s) index.by_skill_id d ∙ h
            ]))
    ]

-- Where the loop does not throw, every skill is found.
add_skills-found :
    (pack : String) (skills : List SkillDefinitionInput) (index : CapabilityIndex)
    → (add_skills pack skills index).1 ≡ none
    → (s : SkillDefinitionInput) → Has s skills
    → get_key s.id (add_skills pack skills index).0.by_skill_id ≡ some (entry_of_pack pack s)
unfolding add_skills with_skill entry_of_pack
add_skills-found pack [] index h s m = absurd m
add_skills-found pack (x ∷ rest) index h s m = elim (Bool-cases (has_key x.id index.by_skill_id)) [
  | inl e ↦ cc (rw (e, add_skills) at h)
  | inr n ↦
      let others : (add_skills pack rest (with_skill pack x index)).1 ≡ none =
        rw (n, add_skills) at h in
      rw n (elim m [
        | inl same ↦
            subst
              (λ y.
                get_key y.id (add_skills pack rest (with_skill pack x index)).0.by_skill_id
                ≡ some (entry_of_pack pack y))
              same
              (add_skills-kept pack rest (with_skill pack x index) x.id _
                (get_key-put_key_same x.id (entry_of_pack pack x) index.by_skill_id))
        | inr there ↦ add_skills-found pack rest (with_skill pack x index) others s there
      ])
]

-- The three outcomes of `tryAdd`.
pub record IsTried (m : CapabilityMetadata) (index : CapabilityIndex) : Type 0 where
  pub refused : (try_add m index).1 ≡ ok false → (try_add m index).0 ≡ index
  pub entered :
      (try_add m index).1 ≡ ok true
      → (s : SkillDefinitionInput) → Has s m.skills
      → find_skill s.id (try_add m index).0 ≡ some (record { skill = s; pack_id = m.pack_id })
  pub kept :
      (key : String) (entry : IndexedSkill)
      → find_skill key index ≡ some entry
      → find_skill key (try_add m index).0 ≡ some entry

outcome_true :
    (o : Option HarnessError) (b : Bool)
    → elim o as (λ x. Result HarnessError Bool) [ none ↦ ok true | some e ↦ err e ] ≡ ok b
    → (b ≡ true) × (o ≡ none)
outcome_true none b h = (cc h, refl)
outcome_true (some e) b h = cc h

enter_pack-kept :
    (m : CapabilityMetadata) (index : CapabilityIndex)
    → (enter_pack m index).by_skill_id ≡ index.by_skill_id
unfolding enter_pack
enter_pack-kept m index = refl

-- Where `tryAdd` returns false the index is unchanged; where it returns true every skill of the pack
-- is found under its id; and whatever it does, a skill that was found is still found.
pub try_add-IsTried : (m : CapabilityMetadata) (index : CapabilityIndex) → IsTried m index
unfolding try_add add find_skill entry_of_pack
try_add-IsTried m index = elim (Bool-cases (has_key m.pack_id index.packs)) [
  | inl e ↦ record {
    refused = λ h. rw e refl;
    entered = λ h. cc (rw (e, try_add) at h);
    kept = λ key entry h. rw e h;
  }
  | inr n ↦
      elim (Bool-cases
        (any (λ (s : SkillDefinitionInput). has_key s.id index.by_skill_id) m.skills)) [
          | inl e ↦ record {
            refused = λ h. rw (n, e) refl;
            entered = λ h. cc (rw (n, e, try_add) at h);
            kept = λ key entry h. rw (n, e) h;
          }
          | inr d ↦ record {
            refused = λ h. cc (outcome_true _ false (rw (n, d, try_add) at h)).0;
            entered = λ h s has.
                rw (n, d)
                  (add_skills-found m.pack_id m.skills (enter_pack m index)
                    (outcome_true _ true (rw (n, d, try_add) at h)).1 s has);
            kept = λ key entry h.
                rw (n, d) (add_skills-kept m.pack_id m.skills (enter_pack m index) key entry h);
          }
        ]
]
