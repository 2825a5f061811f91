-- ===== src/Journal/RoundTrip/Arrays.antt =====
-- The single edits of the array loops of `diffInto`, applied.
use libcheloniajs.Base.{ℕ, zero, suc, ◌+◌, ◌≡◌, ap, sym, ◌∙◌, [], ◌∷◌, none, some, arith}
use libcheloniajs.Base.Throws.{ok}
use libcheloniajs.Journal.Json.{
  Value, array, Items, nil, cons, item_count, append_items, clone_value_lem, is_container,
}
use libcheloniajs.Journal.Shapes.{
  take_items, remove_item_last, take_items_all, item_count-take_items, take_items-take_items,
  insert_item_end,
}
use libcheloniajs.Journal.Index.{index_text, number_of-index_text, index_text-ne-dash}
use libcheloniajs.Journal.Diff.{add, remove}
use libcheloniajs.Journal.Diff.Edits.{edit, edits_tail}
use libcheloniajs.Journal.Turtledash.{Turtledash}
use libcheloniajs.Journal.Apply as Applier
use libcheloniajs.Journal.Apply.{edit_array, edit_at, walk, apply_at, check_patch}
use libcheloniajs.Journal.Apply.Edits.{apply_edit, apply_edits}

module _ (t : Turtledash) where
  remove_last :
      (m : ℕ) (zs : Items)
      → item_count zs ≡ suc m
      → apply_edit t (array zs) (edit remove (index_text m ∷ []) none)
        ≡ ok (array (take_items m zs))
  unfolding apply_edit apply_at walk Applier.edit edit_array edit_at is_container check_patch
  remove_last m zs e =
      ground (arith, e, number_of-index_text m, index_text-ne-dash m, remove_item_last m zs e)

  -- Adding at the end.
  pub add_last :
      (pre : Items) (y : Value)
      → apply_edit t (array pre) (edit add (index_text (item_count pre) ∷ []) (some y))
        ≡ ok (array (append_items pre (cons y nil)))
  unfolding apply_edit apply_at walk Applier.edit edit_array edit_at is_container check_patch
  add_last pre y = ground (
    arith,
    number_of-index_text (item_count pre),
    index_text-ne-dash (item_count pre),
    insert_item_end pre y,
    clone_value_lem y,
  )

  -- The removals from the tail down leave the first items.
  pub apply_edits-tail :
      (n i : ℕ) (zs : Items)
      → item_count zs ≡ i + n
      → apply_edits t (array zs) (edits_tail n i) ≡ ok (array (take_items i zs))
  unfolding apply_edits edits_tail
  apply_edits-tail zero i zs e =
      let full : i ≡ item_count zs = omega arith in
      rw full (ap (λ ys. ok (array ys)) (sym (take_items_all zs)))
  apply_edits-tail (suc n) i zs e = rw (remove_last (i + n) zs (omega arith)) (
      apply_edits-tail n i (take_items (i + n) zs)
        (item_count-take_items (i + n) 1 zs (omega arith))
      ∙ ap (λ ys. ok (array ys)) (take_items-take_items i (i + n) zs (omega arith)))
