-- ===== src/Strip/Order.antt =====
-- The numbering and the order of surfaces under `append`, `remove` and `insert_ordered`.
use simulboot.Base.{
  ℕ, ◌+◌, ◌%◌, ◌^◌, ◌≤◌, ◌<◌, ◌≡◌, refl, sym, ap, ◌∙◌, ◌↔◌, inl, inr, false, none, some, List, [],
  ◌∷◌, ◌++◌, map, arith, ◌==◌, if◌then◌else◌, Bool-cases, Option-cases, length, All, bytes_eq,
  bytes_eq_iff,
}
use simulboot.Float.{Float}
use simulboot.Wire.{SurfaceId}
use simulboot.Strip.{
  Surface, Strip, any_id, default_surface_width, take_id, renumber, insert_by_order, sort_by_order,
  insert_ordered, append,
}

module _ {F A : Type 0} where
  -- The orders count up from `k`.
  abbrev pub Numbered : ℕ → List (Surface F A) → Type 0
  Numbered k [] = Unit
  Numbered k (s ∷ rest) = (s.order ≡ k) × Numbered (k + 1) rest

  -- A surface with its order left out.
  abbrev pub unordered : Surface F A → Surface F A
  unordered s = record s { order = 0 }

  pub renumber-Numbered :
      (k : ℕ) (ss : List (Surface F A)) → k + length ss ≤ 2 ^ 32 → Numbered k (renumber k ss)
  unfolding renumber
  renumber-Numbered k [] h = tt
  renumber-Numbered k (s ∷ rest) h = (omega arith, renumber-Numbered (k + 1) rest (omega arith))

  pub renumber-unordered :
      (k : ℕ) (ss : List (Surface F A)) → map unordered (renumber k ss) ≡ map unordered ss
  unfolding renumber
  renumber-unordered k [] = refl
  renumber-unordered k (s ∷ rest) = ap (◌∷◌ (unordered s)) (renumber-unordered (k + 1) rest)

  Numbered-snoc :
      (k : ℕ) (ss : List (Surface F A)) (s : Surface F A)
      → Numbered k ss
      → s.order ≡ k + length ss
      → Numbered k (ss ++ s ∷ [])
  Numbered-snoc k [] s h e = (omega arith, tt)
  Numbered-snoc k (t ∷ rest) s h e = (h.0, Numbered-snoc (k + 1) rest s h.1 (omega arith))

  -- Where the first surface with an id stands.
  pub record Split (id : SurfaceId) (ss : List (Surface F A)) (s : Surface F A)
      (rest : List (Surface F A)) : Type 0 where
    pub before : List (Surface F A)
    pub after : List (Surface F A)
    pub whole : ss ≡ before ++ s ∷ after
    pub without : rest ≡ before ++ after
    pub found : s.id ≡ id
    pub first : any_id id before ≡ false

  pub take_id-Split :
      (id : SurfaceId) (ss : List (Surface F A)) {s : Surface F A} {rest : List (Surface F A)}
      → take_id id ss ≡ some (s, rest)
      → Split id ss s rest
  unfolding take_id any_id
  take_id-Split id [] h = cc
  take_id-Split id (t ∷ ts) {s} {rest} h = elim (Bool-cases (bytes_eq t.id id)) [
    | inl same ↦ record {
      before = [];
      after = ts;
      whole = ground arith;
      without = ground arith;
      found = ground (arith, bytes_eq_iff t.id id);
      first = refl;
    }
    | inr other ↦ elim (Option-cases (take_id id ts)) [
      | inl missing ↦ ground arith
      | inr ((u, us), e) ↦
          let sp = take_id-Split id ts e in
          let same : u ≡ s = ground arith in
          let tail : t ∷ us ≡ rest = ground arith in
          record {
            before = t ∷ sp.before;
            after = sp.after;
            whole = rw (← same) (ap (λ l. t ∷ l) sp.whole);
            without = sym tail ∙ ap (λ l. t ∷ l) sp.without;
            found = rw (← same) sp.found;
            first = rw other sp.first;
          }
    ]
  ]

  pub take_id-none :
      (id : SurfaceId) (ss : List (Surface F A)) → (take_id id ss ≡ none) ↔ (any_id id ss ≡ false)
  unfolding take_id any_id
  take_id-none id [] = ((λ _. refl), λ _. refl)
  take_id-none id (s ∷ ss) =
      let (there, back) = take_id-none id ss in
      ((λ h. ground (arith, there)), λ h. ground (arith, back))

  -- Orders grow along the list.
  abbrev pub Sorted : List (Surface F A) → Type 0
  Sorted [] = Unit
  Sorted (s ∷ rest) = All (λ t. s.order ≤ t.order) rest × Sorted rest

  -- The surfaces with one order, as they stand.
  unfoldable pub with_order : ℕ → List (Surface F A) → List (Surface F A)
  with_order k [] = []
  with_order k (s ∷ rest) = if s.order == k then s ∷ with_order k rest else with_order k rest

  All-le_trans :
      (a b : ℕ) (ss : List (Surface F A))
      → a ≤ b
      → All (λ t. b ≤ t.order) ss
      → All (λ t. a ≤ t.order) ss
  All-le_trans a b [] h k = tt
  All-le_trans a b (s ∷ ss) h k = (omega arith, All-le_trans a b ss h k.1)

  All-insert :
      (a : ℕ) (s : Surface F A) (ss : List (Surface F A))
      → a ≤ s.order
      → All (λ t. a ≤ t.order) ss
      → All (λ t. a ≤ t.order) (insert_by_order s ss)
  unfolding insert_by_order
  All-insert a s [] h k = (h, tt)
  All-insert a s (t ∷ ss) h k = ground (arith, All-insert a s ss h k.1)

  insert_by_order-Sorted :
      (s : Surface F A) (ss : List (Surface F A)) → Sorted ss → Sorted (insert_by_order s ss)
  unfolding insert_by_order
  insert_by_order-Sorted s [] h = (tt, tt)
  insert_by_order-Sorted s (t ∷ ss) h = ground (
    arith,
    All-le_trans s.order t.order ss,
    All-insert t.order s ss,
    insert_by_order-Sorted s ss h.1,
  )

  insert_by_order-with_order :
      (k : ℕ) (s : Surface F A) (ss : List (Surface F A))
      → with_order k (insert_by_order s ss) ≡ with_order k (s ∷ ss)
  unfolding insert_by_order with_order
  insert_by_order-with_order k s [] = refl
  insert_by_order-with_order k s (t ∷ ss) = ground (arith, insert_by_order-with_order k s ss)

  sort_by_order-Sorted : (ss : List (Surface F A)) → Sorted (sort_by_order ss)
  unfolding sort_by_order
  sort_by_order-Sorted [] = tt
  sort_by_order-Sorted (s ∷ ss) =
      insert_by_order-Sorted s (sort_by_order ss) (sort_by_order-Sorted ss)

  with_order-cons :
      (k : ℕ) (s : Surface F A) (xs ys : List (Surface F A))
      → with_order k xs ≡ with_order k ys
      → with_order k (s ∷ xs) ≡ with_order k (s ∷ ys)
  unfolding with_order
  with_order-cons k s xs ys h = rw h

  pub sort_by_order-with_order :
      (k : ℕ) (ss : List (Surface F A)) → with_order k (sort_by_order ss) ≡ with_order k ss
  unfolding sort_by_order
  sort_by_order-with_order k [] = refl
  sort_by_order-with_order k (s ∷ ss) =
      insert_by_order-with_order k s (sort_by_order ss)
      ∙ with_order-cons k s (sort_by_order ss) ss (sort_by_order-with_order k ss)

  -- Numbered surfaces are sorted already.
  sort_by_order-Numbered : (k : ℕ) (ss : List (Surface F A)) → Numbered k ss → sort_by_order ss ≡ ss
  unfolding sort_by_order insert_by_order
  sort_by_order-Numbered k [] h = refl
  sort_by_order-Numbered k (s ∷ []) h = refl
  sort_by_order-Numbered k (s ∷ t ∷ ss) h =
      rw (sort_by_order-Numbered (k + 1) (t ∷ ss) h.1) (ground arith)

  -- A surface that comes next in the numbering is inserted at the end.
  pub insert_ordered-next :
      (s : Surface F A) (self : Strip F A)
      → Numbered 0 (self.surfaces ++ s ∷ [])
      → insert_ordered s self ≡ record self { surfaces = self.surfaces ++ s ∷ [] }
  unfolding insert_ordered
  insert_ordered-next s self h =
      ap (λ ss. record self { surfaces = ss })
        (sort_by_order-Numbered 0 (self.surfaces ++ s ∷ []) h)

  -- `insert_ordered` leaves the surfaces sorted by their order, and stably: the surfaces with any
  -- one order are those of before with the new one behind them, in the same sequence.
  pub insert_ordered-Sorted :
      (s : Surface F A) (self : Strip F A)
      → Sorted (insert_ordered s self).surfaces
        × ((k : ℕ)
            → with_order k (insert_ordered s self).surfaces
              ≡ with_order k (self.surfaces ++ s ∷ []))
  unfolding insert_ordered
  insert_ordered-Sorted s self = (
    sort_by_order-Sorted (self.surfaces ++ s ∷ []),
    λ k. sort_by_order-with_order k (self.surfaces ++ s ∷ []),
  )

module _ (f : Float) {A : Type 0} where
  open f use {Carrier}

  -- The surface as `append` places it: numbered, and with the default size where it has none.
  unfoldable pub sized_for : ℕ → Surface Carrier A → Strip Carrier A → Surface Carrier A
  sized_for order s self = record s {
    order = order;
    width = if f.le s.width (f.of_ℕ 0) then f.div self.viewport_width (f.of_ℕ 3) else s.width;
    height = if f.le s.height (f.of_ℕ 0) then self.viewport_height else s.height;
  }

  -- On a strip of fewer than 2^32 surfaces that are numbered from 0, `append` leaves those surfaces
  -- as they are and puts the new one behind them, with their count as its order, a width of zero or
  -- less replaced by a third of the viewport's and such a height by the viewport's; all of them are
  -- then numbered from 0, the count is returned, and nothing else of the strip changes.
  pub append-Numbered :
      (s : Surface Carrier A) (self : Strip Carrier A)
      → Numbered 0 self.surfaces
      → length self.surfaces < 2 ^ 32
      → Numbered 0 (append f s self).0.surfaces
        × (append f s self ≡ (
          record self { surfaces = self.surfaces ++ sized_for (length self.surfaces) s self ∷ [] },
          length self.surfaces,
        ))
  unfolding append default_surface_width sized_for
  append-Numbered s self h k =
      let whole : length self.surfaces % 2 ^ 32 ≡ length self.surfaces = omega arith in
      (Numbered-snoc 0 self.surfaces _ h (omega arith), rw whole refl)
