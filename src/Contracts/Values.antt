-- ===== src/Contracts/Values.antt =====
-- packages/agents/src/contracts/index.ts: `JsonValue`, and what the sources do with plain objects.
-- A number is kept as a finite decimal, `sign * digits / 10 ^ scale`; the code only asks for its type.
use knolo_agents.Base.{
  ℕ, String, ◌≡◌, refl, Bool, false, ◌||◌, Option, none, some, List, [], ◌∷◌, arith, ◌==◌, eq_iff,
  if◌then◌else◌, includes,
}

mutual
  pub data Json : Type 0 where
    null : Json
    bool : Bool → Json
    number : (negative : Bool) (digits scale : ℕ) → Json
    string : String → Json
    array : Items → Json
    object : Fields → Json

  pub data Items : Type 0 where
    nil : Items
    item : Json → Items → Items

  -- The own enumerable properties, in their order.
  pub data Fields : Type 0 where
    end : Fields
    field : String → Json → Fields → Fields

-- Object.keys(o)
abbrev pub keys : Fields → List String
keys end = []
keys (field k v fs) = k ∷ keys fs

-- o[k], where `k` is an own property
unfoldable pub lookup : String → Fields → Option Json
lookup k end = none
lookup k (field j v fs) = if j == k then some v else lookup k fs

-- o[k] = v: a property that is there keeps its place
unfoldable pub put : String → Json → Fields → Fields
put k v end = field k v end
put k v (field j w fs) = if j == k then field j v fs else field j w (put k v fs)

-- { ...o, ...update }
unfoldable pub assign : Fields → Fields → Fields
unfolding put
assign o end = o
assign o (field k v update) = assign (put k v o) update

pub lookup-put :
    (k j : String) (v : Json) (o : Fields)
    → lookup j (put k v o) ≡ (if k == j then some v else lookup j o)
unfolding lookup put
lookup-put k j v end = refl
lookup-put k j v (field i w o) =
    ground (arith, eq_iff k j, eq_iff i k, eq_iff i j, lookup-put k j v o)

-- A spread changes only the properties that the update names.
pub lookup-assign_other :
    (j : String) (o update : Fields)
    → includes (keys update) j ≡ false
    → lookup j (assign o update) ≡ lookup j o
unfolding assign
lookup-assign_other j o end h = refl
lookup-assign_other j o (field k v update) h =
    ground (arith, lookup-assign_other j (put k v o) update, lookup-put k j v o)

keys-put :
    (k j : String) (v : Json) (o : Fields)
    → includes (keys (put k v o)) j ≡ (includes (keys o) j || k == j)
unfolding put
keys-put k j v end = ground arith
keys-put k j v (field i w o) = ground (arith, eq_iff k j, eq_iff i k, eq_iff i j, keys-put k j v o)

-- A spread has the properties of both objects.
pub keys-assign :
    (j : String) (o update : Fields)
    → includes (keys (assign o update)) j ≡ (includes (keys o) j || includes (keys update) j)
unfolding assign
keys-assign j o end = ground arith
keys-assign j o (field k v update) =
    ground (arith, keys-assign j (put k v o) update, keys-put k j v o)
