-- ===== src/Engine/Writes.antt =====
-- An execution changes only what the nodes of its graph declare that they write.
use mathlib.Core.List.{Memᴰ}
use mathlib.Core.Path.{subst}
use knolo_agents.Base.{
  String, ◌≡◌, refl, ◌∙◌, false, Option, none, some, List, [], ◌∷◌, ◌==◌, eq_iff, includes, In, ok,
  arith, find-eq-some, Bool-cases, inl, inr,
}
use knolo_agents.Contracts.{NodeDefinition, ExecutionReport}
use knolo_agents.Contracts.Values.{Fields, keys, lookup, lookup-assign_other}
use knolo_agents.Builder.{CompiledAgentDefinition, pointer}
use knolo_agents.Engine.Steps.{
  Surroundings, Loop, emit, visit, charge, commit, move, check_writes, node_of,
}
use knolo_agents.Engine.Induction.{IsKept}
use knolo_agents.Engine.Endings.{EndsIn, kept-EndsIn, execute-eq-ok}
use knolo_agents.Engine.State.{initial_loop-state}
use knolo_agents.Engine.{reported, initial_snapshot, run_from, execute, report}

module _ (d : CompiledAgentDefinition) (around : Surroundings) where
  -- A key that passes is declared by the node that writes it.
  check_writes_declared :
      (declared : Option NodeDefinition) (current key : String) (ks : List String)
      → check_writes d around declared current ks ≡ ok tt
      → In key ks
      → (n : NodeDefinition) × (declared ≡ some n) × In (pointer key) n.writes
  unfolding check_writes
  check_writes_declared declared current key [] h m = cc
  check_writes_declared none current key (k ∷ ks) h m = cc
  check_writes_declared (some n) current key (k ∷ ks) h m = elim (Bool-cases (k == key)) [
    | inl e ↦ (n, refl, ground (arith, eq_iff k key))
    | inr e ↦ check_writes_declared (some n) current key ks (ground arith) (ground arith)
  ]

  node_of-Memᴰ :
      (id : String) {n : NodeDefinition} → node_of d around id ≡ some n → Memᴰ n d.graph.nodes
  unfolding node_of
  node_of-Memᴰ id e = (find-eq-some _ d.graph.nodes e).0

  -- No node of the graph declares that it writes the key.
  abbrev pub IsUnwritten : String → Type 0
  IsUnwritten key =
      (n : NodeDefinition) → Memᴰ n d.graph.nodes → includes n.writes (pointer key) ≡ false

  module _ (key : String) (initial : Fields) (unwritten : IsUnwritten key) where
    abbrev Keeps : Loop → Type 0
    Keeps s = lookup key s.state.value ≡ lookup key initial

    update_spares :
        (update : Fields) (s : Loop)
        → check_writes d around (node_of d around s.current) s.current (keys update) ≡ ok tt
        → includes (keys update) key ≡ false
    update_spares update s w = elim (Bool-cases (includes (keys update) key)) [
      | inl m ↦
          let (n, e, written) =
            check_writes_declared (node_of d around s.current) s.current key (keys update) w m in
          cc (unwritten n (node_of-Memᴰ s.current e), written)
      | inr m ↦ m
    ]

    Keeps-kept : IsKept d around Keeps
    unfolding emit visit charge move commit
    Keeps-kept = record {
      quiet = record {
        by_emit = λ kind node s h. h;
        by_visit = λ s h. h;
        by_move = λ t s m h. h;
        by_commit = λ update s w c h.
            lookup-assign_other key s.state.value update (update_spares update s w) ∙ h;
      };
      by_charge = λ execution s h. h;
    }

    run_Keeps :
        EndsIn Keeps (run_from d around (initial_snapshot d around initial) d.graph.entry 0 0 0)
    unfolding run_from initial_snapshot
    run_Keeps =
        let (same, only) =
          initial_loop-state d around (initial_snapshot d around initial) d.graph.entry 0 0 0 in
        kept-EndsIn d around Keeps Keeps-kept _ _ (rw same refl)

-- A property of the state that no node of the graph declares that it writes has, in the report of
-- an execution, the value that it had at the start.
pub execute-unwritten :
    (d : CompiledAgentDefinition) (around : Surroundings) (initial : Fields) (key : String)
    {r : ExecutionReport}
    → IsUnwritten d around key
    → execute d around initial ≡ ok (reported r)
    → lookup key r.state.value ≡ lookup key initial
unfolding report
execute-unwritten d around initial key {r} unwritten e =
    let (valid, same) = execute-eq-ok d around initial e in
    let (status, s, is_report, h) =
      subst (EndsIn (Keeps d around key initial unwritten)) same
        (run_Keeps d around key initial unwritten) in
    rw is_report h
