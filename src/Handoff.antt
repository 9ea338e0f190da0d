-- ===== src/Handoff.antt =====
-- packages/agents/src/multi-agent/index.ts and packages/agents/src/hitl/index.ts: what is asked
-- before authority is passed on or a suspended run goes on.
use knolo_agents.Base.{
  ℕ, ◌≤◌, ◌<◌, ◌≡◌, ◌↔◌, refl, String, Bool, true, false, ◌&&◌, List, [], ◌∷◌, every, includes, All,
  Subset, every-includes→Subset, Subset→every-includes, leb, ltb, min, Result, ok, ◌>>◌, require,
  require-eq-ok, >>-eq-ok, ltb→lt, &&-eq-true, ◌==◌, str_eq→eq, str_eq_refl, arith,
}
use knolo_agents.Contracts.Values.{Json, object}
use knolo_agents.Replay.{ArtifactHashes}

pub record Authority : Type 0 where
  pub capabilities : List String
  pub namespaces : List String
  pub max_steps : ℕ
  pub max_cost_micros : ℕ

pub data HandoffError : Type 0 where
  authority_escalation stale_resume_token invalid_resume_input : HandoffError

-- subset(a, b)
abbrev pub is_subset : List String → List String → Bool
is_subset a b = every (includes b) a

unfoldable pub is_narrow : Authority → Authority → Authority → Bool
is_narrow child parent pack =
    is_subset child.capabilities parent.capabilities
    && (is_subset child.capabilities pack.capabilities
        && (is_subset child.namespaces parent.namespaces
            && (is_subset child.namespaces pack.namespaces
                && (leb child.max_steps (min parent.max_steps pack.max_steps)
                    && leb child.max_cost_micros
                        (min parent.max_cost_micros pack.max_cost_micros)))))

unfoldable pub assert_narrow_authority :
    Authority → Authority → Authority → Result HandoffError (Unit {0})
unfolding is_narrow
assert_narrow_authority child parent pack =
    require (is_narrow child parent pack) authority_escalation

-- The first authority is no more than the second.
pub record IsWithin (child outer : Authority) : Type 0 where
  pub capabilities_within : Subset child.capabilities outer.capabilities
  pub namespaces_within : Subset child.namespaces outer.namespaces
  pub steps_within : child.max_steps ≤ outer.max_steps
  pub cost_within : child.max_cost_micros ≤ outer.max_cost_micros

IsWithin-narrow :
    (child parent pack : Authority)
    → IsWithin child parent
    → IsWithin child pack
    → is_narrow child parent pack ≡ true
unfolding is_narrow
IsWithin-narrow child parent pack p q = ground (
  arith,
  Subset→every-includes child.capabilities parent.capabilities p.capabilities_within,
  Subset→every-includes child.capabilities pack.capabilities q.capabilities_within,
  Subset→every-includes child.namespaces parent.namespaces p.namespaces_within,
  Subset→every-includes child.namespaces pack.namespaces q.namespaces_within,
  p.steps_within,
  q.steps_within,
  p.cost_within,
  q.cost_within,
)

is_narrow-IsWithin :
    (child parent pack : Authority)
    → is_narrow child parent pack ≡ true
    → IsWithin child parent × IsWithin child pack
unfolding is_narrow
is_narrow-IsWithin child parent pack h = (
  record {
    capabilities_within =
        every-includes→Subset child.capabilities parent.capabilities (ground arith);
    namespaces_within = every-includes→Subset child.namespaces parent.namespaces (ground arith);
    steps_within = ground arith;
    cost_within = ground arith;
  },
  record {
    capabilities_within = every-includes→Subset child.capabilities pack.capabilities (ground arith);
    namespaces_within = every-includes→Subset child.namespaces pack.namespaces (ground arith);
    steps_within = ground arith;
    cost_within = ground arith;
  },
)

-- A handoff is accepted exactly where the child's authority is within the parent's and within the pack's:
-- in capabilities, namespaces, steps and cost.
pub assert_narrow_authority_iff :
    (child parent pack : Authority)
    → (assert_narrow_authority child parent pack ≡ ok tt)
      ↔ (IsWithin child parent × IsWithin child pack)
unfolding assert_narrow_authority
assert_narrow_authority_iff child parent pack = (
  λ h. is_narrow-IsWithin child parent pack (require-eq-ok _ _ h),
  λ p. rw (IsWithin-narrow child parent pack p.0 p.1) refl,
)

pub IsWithin-trans : (a b c : Authority) → IsWithin a b → IsWithin b c → IsWithin a c
IsWithin-trans a b c p q = record {
  capabilities_within = λ x m. q.capabilities_within x (p.capabilities_within x m);
  namespaces_within = λ x m. q.namespaces_within x (p.namespaces_within x m);
  steps_within = omega (arith, p.steps_within, q.steps_within);
  cost_within = omega (arith, p.cost_within, q.cost_within);
}

-- The authorities that are handed on, each to the next, under the authority of one pack.
abbrev pub handed_on : Authority → Authority → List Authority → Result HandoffError (Unit {0})
handed_on parent pack [] = ok tt
handed_on parent pack (child ∷ rest) =
    assert_narrow_authority child parent pack >> handed_on child pack rest

-- Along a chain of handoffs that were all accepted, every authority is within the first.
pub handed_on-IsWithin :
    (parent pack : Authority) (chain : List Authority)
    → handed_on parent pack chain ≡ ok tt
    → All (λ child. IsWithin child parent) chain
handed_on-IsWithin parent pack [] h = tt
handed_on-IsWithin parent pack (child ∷ rest) h =
    let (accepted, others) = >>-eq-ok (assert_narrow_authority child parent pack) _ h in
    let within = ((assert_narrow_authority_iff child parent pack).0 accepted).0 in
    (within, All-IsWithin child parent within rest (handed_on-IsWithin child pack rest others))
  where
    All-IsWithin :
        (child parent : Authority)
        → IsWithin child parent
        → (chain : List Authority) → All (λ a. IsWithin a child) chain
        → All (λ a. IsWithin a parent) chain
    All-IsWithin child parent w [] a = tt
    All-IsWithin child parent w (x ∷ chain) a =
        (IsWithin-trans x child parent a.0 w, All-IsWithin child parent w chain a.1)

pub record HitlSuspension : Type 0 where
  pub version : ℕ
  pub execution_id : String
  pub reason : String
  pub requested_action : String
  pub review_context : Json
  pub expires_at_ms : ℕ
  pub resume_schema_hash : String
  pub artifact_hashes : ArtifactHashes
  pub token : String

-- typeof input === "object" && input !== null && !Array.isArray(input)
unfoldable pub is_plain_object : Json → Bool
is_plain_object (object o) = true
is_plain_object _ = false

unfoldable pub validate_resume : HitlSuspension → Json → String → ℕ → Result HandoffError Json
unfolding is_plain_object
validate_resume suspension input schema_hash now =
    require (ltb now suspension.expires_at_ms) stale_resume_token
    >> (require (schema_hash == suspension.resume_schema_hash && is_plain_object input)
          invalid_resume_input
        >> ok input)

-- What a resume needs.
pub record MayResume (suspension : HitlSuspension) (input : Json) (schema_hash : String) (now : ℕ)
    : Type 0 where
  pub in_time : now < suspension.expires_at_ms
  pub same_schema : schema_hash ≡ suspension.resume_schema_hash
  pub is_object : is_plain_object input ≡ true

validate_resume_sound :
    (suspension : HitlSuspension) (input : Json) (schema_hash : String) (now : ℕ)
    → validate_resume suspension input schema_hash now ≡ ok input
    → MayResume suspension input schema_hash now
unfolding validate_resume
validate_resume_sound suspension input schema_hash now h =
    let (in_time, others) =
      >>-eq-ok (require (ltb now suspension.expires_at_ms) stale_resume_token) _ h in
    let (tested, same) =
      >>-eq-ok
        (require (schema_hash == suspension.resume_schema_hash && is_plain_object input)
          invalid_resume_input)
        _ others in
    let (hash_same, plain) = &&-eq-true _ _ (require-eq-ok _ _ tested) in
    record {
      in_time = ltb→lt now suspension.expires_at_ms (require-eq-ok _ _ in_time);
      same_schema = str_eq→eq schema_hash suspension.resume_schema_hash hash_same;
      is_object = plain;
    }

-- A resume is accepted, with its input unchanged, exactly where the token has not expired, the schema is
-- the one that the suspension names and the input is an object.
pub validate_resume_iff :
    (suspension : HitlSuspension) (input : Json) (schema_hash : String) (now : ℕ)
    → (validate_resume suspension input schema_hash now ≡ ok input)
      ↔ MayResume suspension input schema_hash now
unfolding validate_resume
validate_resume_iff suspension input schema_hash now = (
  validate_resume_sound suspension input schema_hash now,
  λ m. ground (
    arith,
    m.in_time,
    m.same_schema,
    m.is_object,
    str_eq_refl suspension.resume_schema_hash,
    str_eq_refl schema_hash,
  ),
)
