-- ===== src/Context/Budget/Fits.antt =====
-- What the plan of a budget keeps to.
use mathlib.Core.Path.{subst}
use mathlib.Core.List.{append_assoc, append-nil}
use knolo_agents.Base.{
  ℕ, ◌+◌, ◌≤◌, ◌≡◌, refl, sym, ap, ◌∙◌, String, Bool, true, false, Option, List, [], ◌∷◌, ◌++◌, map,
  length, length-append, ltb, ok, >>=-eq-ok, arith, ◌⊎◌, inl, inr, Bool-cases, Has, Has-append,
  Has-last, map-append, snoc-Has, ◌<◌,
}
use knolo_agents.Context.Lexical.{is_redundant}
use knolo_agents.Context.Budget.Repeats.{Repeats, Placed, Placed-grows, is_redundant-Repeats}
use knolo_agents.Context.Budget.{
  RankedContextItem, ContextDrop, DropReason, ContextBudget, BudgetPlan, entry_of, chars_of,
  drop_of, drop_item, select_item, place, offer, fill, empty_plan, apply_budget,
  max_chars_from_budget, budget, redundant,
}

-- The characters of the items.
abbrev pub total_chars : List RankedContextItem → ℕ
total_chars [] = 0
total_chars (item ∷ rest) = chars_of item + total_chars rest

total_chars-append :
    (xs ys : List RankedContextItem) → total_chars (xs ++ ys) ≡ total_chars xs + total_chars ys
total_chars-append [] ys = omega arith
total_chars-append (x ∷ xs) ys = omega (arith, total_chars-append xs ys)

-- What holds of the plan when the items `seen` have been offered.
pub record IsPlan (lower : String → String) (max_chars : ℕ) (seen : List RankedContextItem)
    (plan : BudgetPlan) : Type 0 where
  pub bound_kept : plan.max_chars ≡ max_chars
  pub chars_counted : plan.used_chars ≡ total_chars plan.selected
  pub fits : plan.used_chars ≤ max_chars
  pub entries_match : plan.entries ≡ map entry_of plan.selected
  pub texts_match : plan.selected_texts ≡ map (λ (i : RankedContextItem). i.text) plan.selected
  pub counted : length seen ≡ length plan.selected + length plan.dropped
  pub all_placed : (item : RankedContextItem) → Has item seen → Placed lower max_chars item plan
  pub selected_seen : (item : RankedContextItem) → Has item plan.selected → Has item seen
  pub dropped_seen :
      (d : ContextDrop)
      → Has d plan.dropped
      → (item : RankedContextItem) × Has item seen
        × ((d ≡ drop_of redundant item) ⊎ (d ≡ drop_of budget item))

module _ (lower : String → String) (max_chars : ℕ) where
  -- An item that is required is selected, or repeats what is selected and is dropped for that.
  pub required_kept :
      (seen : List RankedContextItem) (plan : BudgetPlan)
      → IsPlan lower max_chars seen plan
      → (item : RankedContextItem) → Has item seen
      → item.required ≡ true
      → Has item plan.selected
        ⊎ (Has (drop_of redundant item) plan.dropped × Repeats lower item.text plan.selected)
  required_kept seen plan p item h r = elim (p.all_placed item h) [
    | inl s ↦ inl s
    | inr lost ↦ elim lost [ inl d ↦ inr d | inr (d, optional, over) ↦ cc ]
  ]

  drop-IsPlan :
      (reason : DropReason) (item : RankedContextItem) (seen : List RankedContextItem)
      (plan : BudgetPlan)
      → (reason ≡ redundant) ⊎ (reason ≡ budget)
      → Placed lower max_chars item (drop_item reason item plan)
      → IsPlan lower max_chars seen plan
      → IsPlan lower max_chars (seen ++ item ∷ []) (drop_item reason item plan)
  unfolding drop_item
  drop-IsPlan reason item seen plan why placed p = record {
    bound_kept = p.bound_kept;
    chars_counted = p.chars_counted;
    fits = p.fits;
    entries_match = p.entries_match;
    texts_match = p.texts_match;
    counted = omega (
      arith,
      p.counted,
      length-append seen (item ∷ []),
      length-append plan.dropped (drop_of reason item ∷ []),
    );
    all_placed = λ i h. elim (snoc-Has item seen i h) [
      | inl old ↦
          Placed-grows lower max_chars i plan (drop_item reason item plan) (λ j s. s)
            (Has-append (drop_of redundant i) plan.dropped (drop_of reason item ∷ []))
            (Has-append (drop_of budget i) plan.dropped (drop_of reason item ∷ [])) (omega arith)
            (p.all_placed i old)
      | inr e ↦ subst (λ j. Placed lower max_chars j (drop_item reason item plan)) e placed
    ];
    selected_seen = λ i h. Has-append i seen (item ∷ []) (p.selected_seen i h);
    dropped_seen = λ d h. elim (snoc-Has (drop_of reason item) plan.dropped d h) [
      | inl old ↦
          let (i, there, same) = p.dropped_seen d old in
          (i, Has-append i seen (item ∷ []) there, same)
      | inr e ↦ (
        item,
        Has-last item seen,
        elim why [
          | inl w ↦ inl (sym e ∙ ap (λ k. drop_of k item) w)
          | inr w ↦ inr (sym e ∙ ap (λ k. drop_of k item) w)
        ],
      )
    ];
  }

  select-IsPlan :
      (item : RankedContextItem) (seen : List RankedContextItem) (plan : BudgetPlan)
      → plan.used_chars + chars_of item ≤ max_chars
      → IsPlan lower max_chars seen plan
      → IsPlan lower max_chars (seen ++ item ∷ []) (select_item item plan)
  unfolding select_item
  select-IsPlan item seen plan room p = record {
    bound_kept = p.bound_kept;
    chars_counted = omega (arith, p.chars_counted, total_chars-append plan.selected (item ∷ []));
    fits = room;
    entries_match =
        ap (λ es. es ++ entry_of item ∷ []) p.entries_match
        ∙ sym (map-append entry_of plan.selected (item ∷ []));
    texts_match =
        ap (λ ts. ts ++ item.text ∷ []) p.texts_match
        ∙ sym (map-append (λ (i : RankedContextItem). i.text) plan.selected (item ∷ []));
    counted =
        omega (
          arith,
          p.counted,
          length-append seen (item ∷ []),
          length-append plan.selected (item ∷ []),
        );
    all_placed = λ i h. elim (snoc-Has item seen i h) [
      | inl old ↦
          Placed-grows lower max_chars i plan (select_item item plan)
            (λ j s. Has-append j plan.selected (item ∷ []) s) (λ d. d) (λ d. d) (omega arith)
            (p.all_placed i old)
      | inr e ↦
          inl (subst (λ j. Has j (plan.selected ++ item ∷ [])) e (Has-last item plan.selected))
    ];
    selected_seen = λ i h. elim (snoc-Has item plan.selected i h) [
      | inl old ↦ Has-append i seen (item ∷ []) (p.selected_seen i old)
      | inr e ↦ subst (λ j. Has j (seen ++ item ∷ [])) e (Has-last item seen)
    ];
    dropped_seen = λ d h.
        let (i, there, same) = p.dropped_seen d h in (i, Has-append i seen (item ∷ []) there, same);
  }

  place-IsPlan :
      (r o : Bool) (item : RankedContextItem) (seen : List RankedContextItem)
      (plan next : BudgetPlan)
      → (r ≡ true → Repeats lower item.text plan.selected)
      → (o ≡ true → max_chars < plan.used_chars + chars_of item)
      → (o ≡ false → plan.used_chars + chars_of item ≤ max_chars)
      → IsPlan lower max_chars seen plan
      → place r o item plan ≡ ok next
      → IsPlan lower max_chars (seen ++ item ∷ []) next
  unfolding place drop_item
  place-IsPlan true o item seen plan next repeats over room p h =
      subst (IsPlan lower max_chars (seen ++ item ∷ [])) (cc h) (
        drop-IsPlan redundant item seen plan (inl refl)
          (inr (inl (Has-last (drop_of redundant item) plan.dropped, repeats refl))) p)
  place-IsPlan false true item seen plan next repeats over room p h =
      elim (Bool-cases item.required) [
        | inl e ↦ cc (rw (e, place) at h)
        | inr e ↦ subst (IsPlan lower max_chars (seen ++ item ∷ [])) (cc (rw (e, place) at h)) (
            drop-IsPlan budget item seen plan (inr refl)
              (inr (inr (Has-last (drop_of budget item) plan.dropped, e, over refl))) p)
      ]
  place-IsPlan false false item seen plan next repeats over room p h =
      subst (IsPlan lower max_chars (seen ++ item ∷ [])) (cc h)
        (select-IsPlan item seen plan (room refl) p)

  -- Whether an item is over the budget, by the plan's own bound.
  over_iff :
      (plan : BudgetPlan) (item : RankedContextItem)
      → plan.max_chars ≡ max_chars
      → (ltb plan.max_chars (plan.used_chars + chars_of item) ≡ true
          → max_chars < plan.used_chars + chars_of item)
        × (ltb plan.max_chars (plan.used_chars + chars_of item) ≡ false
            → plan.used_chars + chars_of item ≤ max_chars)
  over_iff plan item b = (λ o. ground arith, λ o. ground arith)

  fill-IsPlan :
      (items seen : List RankedContextItem) (plan next : BudgetPlan)
      → IsPlan lower max_chars seen plan
      → fill lower items plan ≡ ok next
      → IsPlan lower max_chars (seen ++ items) next
  unfolding fill offer
  fill-IsPlan [] seen plan next p h =
      subst (λ s. IsPlan lower max_chars s next) (sym (append-nil seen))
        (subst (IsPlan lower max_chars seen) (cc h) p)
  fill-IsPlan (item ∷ rest) seen plan next p h =
      let (between, offered, filled) = >>=-eq-ok (offer lower item plan) (fill lower rest) h in
      let (over, room) = over_iff plan item p.bound_kept in
      let step =
        place-IsPlan _ _ item seen plan between
          (λ r.
            is_redundant-Repeats lower item.text plan.selected
              (subst (λ ts. is_redundant lower item.text ts ≡ true) p.texts_match r))
          over room p offered in
      subst (λ s. IsPlan lower max_chars s next) (append_assoc seen (item ∷ []) rest)
        (fill-IsPlan rest (seen ++ item ∷ []) between next step filled)

  empty-IsPlan : IsPlan lower max_chars [] (empty_plan lower max_chars)
  unfolding empty_plan
  empty-IsPlan = record {
    bound_kept = refl;
    chars_counted = refl;
    fits = omega arith;
    entries_match = refl;
    texts_match = refl;
    counted = refl;
    all_placed = λ i h. absurd h;
    selected_seen = λ i h. absurd h;
    dropped_seen = λ d h. absurd h;
  }

-- What `applyBudget` returns holds the characters of the selected items, which fit the budget, and one
-- entry for each of them in their order. Each item that was offered is selected; or is dropped as
-- redundant, and its normalised text is blank or equal to, a part of, or around that of a selected item;
-- or is dropped for the budget, is not required and does not fit beside what is selected. What is
-- selected or dropped was offered, and there is one of the two for each offer.
pub apply_budget-IsPlan :
    (lower : String → String) (items : List RankedContextItem) (limits : Option ContextBudget)
    (plan : BudgetPlan)
    → apply_budget lower items limits ≡ ok plan
    → (max_chars : ℕ) × (max_chars_from_budget limits ≡ ok max_chars)
      × IsPlan lower max_chars items plan
unfolding apply_budget
apply_budget-IsPlan lower items limits plan h =
    let (max_chars, bounded, filled) = >>=-eq-ok (max_chars_from_budget limits) _ h in
    (
      max_chars,
      bounded,
      fill-IsPlan lower max_chars items [] _ plan (empty-IsPlan lower max_chars) filled,
    )
