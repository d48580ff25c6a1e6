-- ===== src/Layout/MasterStack/Ids.antt =====
-- Which windows MasterStack::arrange places.
use zwwm.Common.{
  ℕ, zero, suc, ◌+◌, ◌-◌, ◌*◌, ◌≡◌, refl, sym, ap, ◌∙◌, arith, Option, none, some, List, [], ◌∷◌,
  ◌++◌, ◌||◌, length-drop, take-append-drop, ltb, leb, ◌==◌, length, drop, take, map, Bool-cases,
  Option-cases, inl, inr, ◌⊎◌,
}
use zwwm.Common.Int.{ℤ, pos, ◌+ℤ◌, ◌-ℤ◌, pos_part}
use zwwm.Layout.Rect.{Rect, Placement}
use zwwm.Layout.MasterStack.{
  Floats, MasterStack, make_rect, inset, ◌>>=◌, cons_tile, tile_loop, tile_height, tile_vertically,
  weight_at, rest_of, place, tile_columns, columns, arrange,
}

-- As many tiles as asked for, if any.
abbrev Counts : ℕ → Option (List Rect) → Type 0
Counts n none = Unit
Counts n (some tiles) = length tiles ≡ n

abbrev PairCounts : ℕ → ℕ → Option (List Rect × List Rect) → Type 0
PairCounts m n none = Unit
PairCounts m n (some (a, b)) = (length a ≡ m) × (length b ≡ n)

cons_tile-Counts :
    (n : ℕ) (t : Option Rect) (r : Option (List Rect)) → Counts n r → Counts (suc n) (cons_tile t r)
cons_tile-Counts n none r h = tt
cons_tile-Counts n (some tile) none h = tt
cons_tile-Counts n (some tile) (some tiles) h = ap suc h

counted-PairCounts :
    (m n k : ℕ) (o : Option (List Rect)) (f : List Rect → Option (List Rect × List Rect))
    → Counts k o
    → ((tiles : List Rect) → length tiles ≡ k → PairCounts m n (f tiles))
    → PairCounts m n (o >>= f)
counted-PairCounts m n k none f c h = tt
counted-PairCounts m n k (some tiles) f c h = h tiles c

abbrev ids_of : List Placement → List ℕ
ids_of = map (λ (p : Placement). p.id)

-- No window at all, or every window in its order.
abbrev pub AllOrNone : List ℕ → List Placement → Type 0
AllOrNone window_ids placements = (placements ≡ []) ⊎ (ids_of placements ≡ window_ids)

ids_of-append : (ps qs : List Placement) → ids_of (ps ++ qs) ≡ ids_of ps ++ ids_of qs
ids_of-append [] qs = refl
ids_of-append (p ∷ ps) qs = ap (λ rest. p.id ∷ rest) (ids_of-append ps qs)

take-length : {A : Type 0} (xs : List A) → take (length xs) xs ≡ xs
take-length [] = refl
take-length (x ∷ xs) = ap (λ rest. x ∷ rest) (take-length xs)

module _ (F : Floats) where
  tile_loop-Counts :
      (left : ℕ) (area : Rect) (gap content index : ℕ) (weights : List F.Float) (total : F.Double)
      (y : ℤ)
      → Counts left (tile_loop F left area gap content index weights total y)
  unfolding tile_loop
  tile_loop-Counts zero area gap content index weights total y = refl
  tile_loop-Counts (suc left) area gap content index weights total y =
      let used = pos_part (y -ℤ area.y) - gap * index in
      let height = tile_height F left content used (weight_at F weights) total in
      cons_tile-Counts left (make_rect area.x y area.width height) _ (
        tile_loop-Counts left area gap content (index + 1) (rest_of weights)
          (F.sub total (weight_at F weights)) (y +ℤ pos (height + gap)))

  tile_vertically-Counts :
      (area : Rect) (count inner_gap : ℕ) (weights : List F.Float)
      → Counts count (tile_vertically F area count inner_gap weights)
  unfolding tile_vertically
  tile_vertically-Counts area count inner_gap weights = elim (Bool-cases (count == 0)) [
    | inl e ↦ rw e (ground arith)
    | inr e ↦ rw e (elim (Bool-cases (area.width == 0 || ltb area.height count)) [
      | inl f ↦ rw f tt
      | inr f ↦ rw f (tile_loop-Counts count area _ _ 0 weights _ area.y)
    ])
  ]

  ids_of-place :
      (ids : List ℕ) (tiles : List Rect) → ids_of (place F ids tiles) ≡ take (length tiles) ids
  unfolding place
  ids_of-place [] [] = refl
  ids_of-place [] (t ∷ tiles) = refl
  ids_of-place (id ∷ ids) [] = refl
  ids_of-place (id ∷ ids) (t ∷ tiles) = ap (λ rest. id ∷ rest) (ids_of-place ids tiles)

  ids_of-place_all :
      (ids : List ℕ) (tiles : List Rect)
      → length tiles ≡ length ids
      → ids_of (place F ids tiles) ≡ ids
  ids_of-place_all ids tiles h = ids_of-place ids tiles ∙ ap (λ n. take n ids) h ∙ take-length ids

  tile_columns-PairCounts :
      (s : MasterStack F) (stacked : ℕ) (m a : Option Rect) (weights : List F.Float)
      → PairCounts s.master_count stacked (tile_columns F s stacked m a weights)
  unfolding tile_columns
  tile_columns-PairCounts s stacked none a weights = tt
  tile_columns-PairCounts s stacked (some m) none weights = tt
  tile_columns-PairCounts s stacked (some m) (some a) weights =
      counted-PairCounts s.master_count stacked s.master_count _ _
        (tile_vertically-Counts m s.master_count s.inner_gap weights)
        (λ masters c.
          counted-PairCounts s.master_count stacked stacked _ (λ x. some (masters, x))
            (tile_vertically-Counts a stacked s.inner_gap (drop s.master_count weights))
            (λ others d. (c, d)))

  columns-PairCounts :
      (s : MasterStack F) (stacked : ℕ) (area : Rect) (weights : List F.Float)
      → PairCounts s.master_count stacked (columns F s stacked area weights)
  unfolding columns
  columns-PairCounts s stacked area weights = elim (Bool-cases (ltb area.width 2)) [
    | inl e ↦ rw e tt
    | inr e ↦ rw e (tile_columns-PairCounts s stacked _ _ weights)
  ]

  -- One column: its placements, if it has tiles.
  one_column :
      (window_ids : List ℕ) (o : Option (List Rect))
      → Counts (length window_ids) o
      → AllOrNone window_ids (elim o as (λ x. List Placement) [
        | none ↦ []
        | some masters ↦ place F window_ids masters
      ])
  one_column window_ids none h = inl refl
  one_column window_ids (some masters) h = inr (ids_of-place_all window_ids masters h)

  two_columns :
      (n : ℕ) (window_ids : List ℕ) (o : Option (List Rect × List Rect))
      → PairCounts n (length window_ids - n) o
      → AllOrNone window_ids (elim o as (λ x. List Placement) [
        | none ↦ []
        | some (masters, others) ↦ place F window_ids masters ++ place F (drop n window_ids) others
      ])
  two_columns n window_ids none h = inl refl
  two_columns n window_ids (some (masters, others)) h = inr (
      ids_of-append (place F window_ids masters) (place F (drop n window_ids) others)
      ∙ rw
          (
            ids_of-place window_ids masters,
            ids_of-place_all (drop n window_ids) others (h.1 ∙ sym (length-drop n window_ids)),
            h.0,
          )
          (take-append-drop n window_ids))

  -- For any rounding of the shares: arrange places no window at all or every window, in their order.
  pub arrange-AllOrNone :
      (s : MasterStack F) (window_ids : List ℕ) (work_area : Rect) (weights : List F.Float)
      → AllOrNone window_ids (arrange F s window_ids work_area weights)
  unfolding arrange
  arrange-AllOrNone s window_ids work_area weights =
      elim (Option-cases (inset work_area s.outer_gap)) [
        | inl e ↦ rw (e, arrange) (inl refl)
        | inr (area, e) ↦
            rw (e, arrange)
              (elim (Bool-cases (leb (length window_ids) s.master_count)) [
                | inl f ↦ rw f (
                    one_column window_ids _
                      (tile_vertically-Counts area (length window_ids) s.inner_gap weights))
                | inr f ↦ rw f (
                    two_columns s.master_count window_ids _
                      (columns-PairCounts s (length window_ids - s.master_count) area weights))
              ])
      ]
