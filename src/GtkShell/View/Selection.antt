-- ===== src/GtkShell/View/Selection.antt =====
-- The pipes that are selected in the tree of modules of src/gtkshell.cc are pipes that there are.
use modglue.Common.{
  ℕ, suc, ◌+◌, ◌≤◌, ◌≡◌, inl, inr, List, [], ◌∷◌, ◌++◌, Bytes, length, arith, Bool-cases,
}
use modglue.GtkShell.{Module}
use modglue.GtkShell.Table.Valid.{pipes_at, IsBond}
use modglue.GtkShell.View.{Item}
use modglue.GtkShell.View.Events.{
  TreeItem, is_process_item, is_info_item, sels_in_rows, sels_of, all_sels,
}
use modglue.GtkShell.View.Rows.{modules, counts, pipes_at-modules, AllShown, length-IsShown}

-- The ends of a new bond.
IsBond-append :
    (ms : List Module) (b c : List (ℕ × ℕ)) → IsBond ms b → IsBond ms c → IsBond ms (b ++ c)
IsBond-append ms [] c h k = k
IsBond-append ms ((i, j) ∷ b) c (h, hs) k = (h, IsBond-append ms b c hs k)

sels_in_rows-IsBond :
    (ms : List Module) (k m : ℕ) (rows : List Bytes) (item : TreeItem)
    → m + length rows ≤ pipes_at ms k
    → IsBond ms (sels_in_rows k m rows item)
unfolding sels_in_rows
sels_in_rows-IsBond ms k m [] item h = tt
sels_in_rows-IsBond ms k m (row ∷ rows) item h = elim (Bool-cases (is_info_item k m item)) [
  | inl selected ↦
      rw selected (omega arith, sels_in_rows-IsBond ms k (m + 1) rows item (omega arith))
  | inr other ↦ rw other (sels_in_rows-IsBond ms k (m + 1) rows item (omega arith))
]

sels_of-IsBond :
    (ms : List Module) (k : ℕ) (items : List Item) (item : TreeItem)
    → ((i : ℕ) → counts items i ≤ pipes_at ms (k + i))
    → AllShown items
    → IsBond ms (sels_of k items item)
unfolding sels_of
sels_of-IsBond ms k [] item g shown = tt
sels_of-IsBond ms k (it ∷ items) item g (row, rows) = elim (Bool-cases (is_process_item k item)) [
  | inl header ↦ rw header tt
  | inr other ↦
      let first : k + 0 ≡ k = omega arith in
      let here_below : length it.proc.pipes ≤ pipes_at ms k = rw first at (g 0) in
      let behind : (i : ℕ) → counts items i ≤ pipes_at ms ((k + 1) + i) =
        λ i. (let step : k + suc i ≡ (k + 1) + i = omega arith in rw step at (g (suc i))) in
      rw other (
        IsBond-append ms (sels_in_rows k 0 it.info_items item) _
          (sels_in_rows-IsBond ms k 0 it.info_items item (omega (arith, length-IsShown it row)))
          (sels_of-IsBond ms (k + 1) items item behind rows))
]

pub all_sels-IsBond :
    (items : List Item) (selection : List TreeItem)
    → AllShown items
    → IsBond (modules items) (all_sels items selection)
unfolding all_sels
all_sels-IsBond items [] shown = tt
all_sels-IsBond items (item ∷ selection) shown =
    let below : (i : ℕ) → counts items i ≤ pipes_at (modules items) (0 + i) = λ i.
      (let same : 0 + i ≡ i = omega arith in rw (same, pipes_at-modules items i) (omega arith)) in
    IsBond-append (modules items) (sels_of 0 items item) _
      (sels_of-IsBond (modules items) 0 items item below shown)
      (all_sels-IsBond items selection shown)
