-- ===== src/InsertionSort/Place.antt =====
-- Where add_card puts a card, and that the deck stays in order.
use bare_metal_architect.Prelude.{
  ℕ, ◌+◌, ◌≤◌, ◌<◌, ◌≡◌, refl, ap, inl, inr, Bool, true, false, List, [], ◌∷◌, ◌++◌, arith, ltb,
  Bool-cases, length, All, Outcome, done, ltb→lt,
}
use mathlib.Core.List.{Perm, perm_middle}
use mathlib.Core.List.Perm
use bare_metal_architect.InsertionSort.{Card, insert, add_card, add_all, max_length}

-- No card costs more than the next one.
abbrev pub Ascending : List Card → Type 0
Ascending [] = Unit
Ascending (a ∷ []) = Unit
Ascending (a ∷ b ∷ rest) = (a.cost ≤ b.cost) × Ascending (b ∷ rest)

abbrev IsAtLeast : ℕ → List Card → Type 0
IsAtLeast bound [] = Unit
IsAtLeast bound (x ∷ rest) = bound ≤ x.cost

Ascending-cons : (x : Card) (l : List Card) → IsAtLeast x.cost l → Ascending l → Ascending (x ∷ l)
Ascending-cons x [] low h = tt
Ascending-cons x (y ∷ l) low h = (low, h)

IsAtLeast-insert :
    (bound : ℕ) (deck : List Card) (c : Card)
    → IsAtLeast bound deck
    → bound ≤ c.cost
    → IsAtLeast bound (insert deck c)
unfolding insert
IsAtLeast-insert bound [] c low h = h
IsAtLeast-insert bound (x ∷ rest) c low h = elim (Bool-cases (ltb c.cost x.cost)) [
  | inl cheaper ↦ rw cheaper h
  | inr dearer ↦ rw dearer low
]

IsAtLeast-Ascending :
    (x : Card) (l : List Card) → Ascending (x ∷ l) → IsAtLeast x.cost l × Ascending l
IsAtLeast-Ascending x [] h = (tt, tt)
IsAtLeast-Ascending x (y ∷ l) h = h

not_cheaper : (c x : Card) → ltb c.cost x.cost ≡ false → x.cost ≤ c.cost
not_cheaper c x e = ground arith

insert-Ascending : (deck : List Card) (c : Card) → Ascending deck → Ascending (insert deck c)
unfolding insert
insert-Ascending [] c h = tt
insert-Ascending (x ∷ rest) c h = elim (Bool-cases (ltb c.cost x.cost)) [
  | inl cheaper ↦ rw cheaper (omega (arith, ltb→lt c.cost x.cost cheaper), h)
  | inr dearer ↦
      let (low, up) = IsAtLeast-Ascending x rest h in
      rw dearer (
        Ascending-cons x (insert rest c)
          (IsAtLeast-insert x.cost rest c low (not_cheaper c x dearer))
          (insert-Ascending rest c up))
]

-- The cards in front of the place cost at most as much as the new one, and the first card behind it
-- costs more.
pub record Place (deck : List Card) (c : Card) (after : List Card) : Type 0 where
  pub cheap : List Card
  pub dear : List Card
  pub old : deck ≡ cheap ++ dear
  pub new : after ≡ cheap ++ (c ∷ dear)
  pub below : All (λ x. x.cost ≤ c.cost) cheap
  pub beyond : IsAtLeast (c.cost + 1) dear

place : (deck : List Card) (c : Card) → Place deck c (insert deck c)
unfolding insert
place [] c = record { cheap = []; dear = []; old = refl; new = refl; below = tt; beyond = tt }
place (x ∷ rest) c = elim (Bool-cases (ltb c.cost x.cost)) [
  | inl cheaper ↦ rw cheaper (record {
    cheap = [];
    dear = x ∷ rest;
    old = refl;
    new = refl;
    below = tt;
    beyond = omega (arith, ltb→lt c.cost x.cost cheaper);
  })
  | inr dearer ↦
      let p = place rest c in
      rw dearer (record {
        cheap = x ∷ p.cheap;
        dear = p.dear;
        old = ap (◌∷◌ x) p.old;
        new = ap (◌∷◌ x) p.new;
        below = (not_cheaper c x dearer, p.below);
        beyond = p.beyond;
      })
]

-- What add_card gives for a deck in order.
pub record Adds (deck : List Card) (c : Card) (r : Outcome (List Card)) : Type 0 where
  pub after : List Card
  pub returned : r ≡ done after
  pub placed : Place deck c after
  pub same_cards : Perm after (c ∷ deck)
  pub ascending : Ascending after

insert-Perm : (deck : List Card) (c : Card) → Perm (insert deck c) (c ∷ deck)
unfolding insert
insert-Perm [] c = Perm.refl (c ∷ [])
insert-Perm (x ∷ rest) c = elim (Bool-cases (ltb c.cost x.cost)) [
  | inl cheaper ↦ rw cheaper (Perm.refl (c ∷ x ∷ rest))
  | inr dearer ↦ rw dearer (Perm.trans (Perm.cons x (insert-Perm rest c)) (Perm.swap c x rest))
]

module _ (alloc : ℕ → Bool) (a0 : alloc 0 ≡ true) (a1 : alloc 1 ≡ true) where
  -- `add_card` of a name of at most 23 characters to a deck in order, its allocations granted: the
  -- card is put behind all the cards that cost at most as much and in front of the dearer ones, the
  -- others stay as they are, and the deck is in order.
  pub add_card-Adds :
      (deck : List Card) (c : Card)
      → Ascending deck
      → length c.name < max_length
      → Adds deck c (add_card alloc deck c.name c.cost)
  unfolding add_card
  add_card-Adds deck c h short =
      let fits : ltb max_length (length c.name + 1) ≡ false = ground arith in
      record {
        after = insert deck c;
        returned = rw (fits, a0, a1) refl;
        placed = place deck c;
        same_cards = insert-Perm deck c;
        ascending = insert-Ascending deck c h;
      }

  -- Any number of cards with names of at most 23 characters that are added to a deck in order,
  -- one after the other, every allocation granted: the deck is in order and has the old cards and
  -- the new.
  pub add_all_lem :
      (deck cards : List Card)
      → Ascending deck
      → All (λ c. length c.name < max_length) cards
      → (after : List Card) × (add_all alloc deck cards ≡ done after)
        × Ascending after
        × Perm after (cards ++ deck)
  unfolding add_all
  add_all_lem deck [] h short = (deck, refl, h, Perm.refl deck)
  add_all_lem deck (c ∷ rest) h short =
      let added = add_card-Adds deck c h short.0 in
      let (after, returned, ascending, same) =
        add_all_lem added.after rest added.ascending short.1 in
      (
        after,
        rw (added.returned, returned) refl,
        ascending,
        Perm.trans same
            (Perm.trans (Perm.append (Perm.refl rest) added.same_cards) (perm_middle rest deck)),
      )
