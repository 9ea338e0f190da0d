-- ===== src/Context/Budget/Repeats.antt =====
-- What it is to repeat a text, and what becomes of an item that is offered.
use knolo_agents.Base.{
  ℕ, ◌+◌, ◌≤◌, ◌<◌, ◌≡◌, refl, String, Bool, true, false, List, [], ◌∷◌, map, any, arith, ◌⊎◌, inl,
  inr, Bool-cases, Has, eq_iff, ◌==◌,
}
use knolo_agents.Base.Text.{text_includes}
use knolo_agents.Context.Lexical.{normalize_text, overlaps, is_redundant}
use knolo_agents.Context.Budget.{
  RankedContextItem, BudgetPlan, chars_of, drop_of, budget, redundant,
}

-- One text is the other, or a part of it.
abbrev pub Overlap : String → String → Type 0
Overlap a b = (b ≡ a) ⊎ ((text_includes b a ≡ true) ⊎ (text_includes a b ≡ true))

any-map-Has :
    (p : String → Bool) (xs : List RankedContextItem)
    → any p (map (λ (i : RankedContextItem). i.text) xs) ≡ true
    → (j : RankedContextItem) × Has j xs × (p j.text ≡ true)
any-map-Has p [] h = cc h
any-map-Has p (x ∷ xs) h = elim (Bool-cases (p x.text)) [
  | inl y ↦ (x, inl refl, y)
  | inr n ↦ let (j, there, y) = any-map-Has p xs (rw n at h) in (j, inr there, y)
]

module _ (lower : String → String) where
  -- A text that is blank once it is normalised, or overlaps one that is selected.
  abbrev pub Repeats : String → List RankedContextItem → Type 0
  Repeats text selected =
      (normalize_text lower text ≡ "")
      ⊎ ((j : RankedContextItem) × Has j selected
          × Overlap (normalize_text lower text) (normalize_text lower j.text))

  overlaps-Overlap :
      (needle text : String)
      → overlaps lower needle text ≡ true
      → Overlap needle (normalize_text lower text)
  unfolding overlaps
  overlaps-Overlap needle text h = elim (Bool-cases (normalize_text lower text == needle)) [
    | inl e ↦ inl ((eq_iff (normalize_text lower text) needle).0 e)
    | inr n ↦ elim (Bool-cases (text_includes (normalize_text lower text) needle)) [
      | inl y ↦ inr (inl y)
      | inr m ↦ inr (inr (rw (n, m, overlaps) at h))
    ]
  ]

  pub is_redundant-Repeats :
      (text : String) (selected : List RankedContextItem)
      → is_redundant lower text (map (λ (i : RankedContextItem). i.text) selected) ≡ true
      → Repeats text selected
  unfolding is_redundant
  is_redundant-Repeats text selected h = elim (Bool-cases (normalize_text lower text == "")) [
    | inl e ↦ inl ((eq_iff (normalize_text lower text) "").0 e)
    | inr n ↦
        let (j, there, y) =
          any-map-Has (overlaps lower (normalize_text lower text)) selected
            (rw (n, is_redundant) at h) in
        inr (j, there, overlaps-Overlap (normalize_text lower text) j.text y)
  ]

  -- An item is selected; or repeats what is selected and is dropped as redundant; or is optional, does not
  -- fit beside what is selected and is dropped for the budget.
  abbrev pub Placed : ℕ → RankedContextItem → BudgetPlan → Type 0
  Placed max_chars item plan =
      Has item plan.selected
      ⊎ ((Has (drop_of redundant item) plan.dropped × Repeats item.text plan.selected)
          ⊎ (Has (drop_of budget item) plan.dropped
              × (item.required ≡ false)
              × (max_chars < plan.used_chars + chars_of item)))

  pub Placed-grows :
      (max_chars : ℕ) (item : RankedContextItem) (plan next : BudgetPlan)
      → ((j : RankedContextItem) → Has j plan.selected → Has j next.selected)
      → (Has (drop_of redundant item) plan.dropped → Has (drop_of redundant item) next.dropped)
      → (Has (drop_of budget item) plan.dropped → Has (drop_of budget item) next.dropped)
      → plan.used_chars ≤ next.used_chars
      → Placed max_chars item plan
      → Placed max_chars item next
  Placed-grows max_chars item plan next more redundants budgets used (inl s) = inl (more item s)
  Placed-grows max_chars item plan next more redundants budgets used (inr (inl (d, inl blank))) =
      inr (inl (redundants d, inl blank))
  Placed-grows max_chars item plan next more redundants budgets used
        (inr (inl (d, inr (j, there, o)))) =
      inr (inl (redundants d, inr (j, more j there, o)))
  Placed-grows max_chars item plan next more redundants budgets used (inr (inr (d, r, over))) =
      inr (inr (budgets d, r, omega arith))
