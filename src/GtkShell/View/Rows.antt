-- ===== src/GtkShell/View/Rows.antt =====
-- The rows and the bonds of `ProcessView` of src/gtkshell.cc: they stand for pipes that there are.
use modglue.Common.{
  ℕ, zero, suc, ◌+◌, ◌≤◌, ◌≡◌, refl, ap, ◌∙◌, List, [], ◌∷◌, ◌++◌, map, Bytes, drop, length,
  length-append, append_assoc, append-nil, drop-length-append, sym, inl, inr, Bool-cases, arith,
}
use modglue.GtkShell.{Module}
use modglue.GtkShell.Table.Valid.{pipes_at}
use modglue.GtkShell.Table.Kept.{Grows}
use modglue.GtkShell.View.{
  PipeInfo, Proc, Item, info_label, update_pipe_subtree, activate_subtree, change_at, show_status,
  show_all_status, is_idle, start_all, after_all,
}
use modglue.GtkShell.View.Events.{
  KeepsPipes, row_text, kill_selected, TreeItem, process_item, info_item, other_item,
}

-- The names of the pipes of the modules, as in the tables of the command line.
pub names : List PipeInfo → List Bytes
names [] = []
names (p ∷ ps) = p.name ∷ names ps

abbrev pub modules : List Item → List Module
modules [] = []
modules (it ∷ items) = record { id = it.proc.id; pipes = names it.proc.pipes } ∷ modules items

-- How many pipes the module at a place has.
abbrev pub counts : List Item → ℕ → ℕ
counts [] i = 0
counts (it ∷ items) zero = length it.proc.pipes
counts (it ∷ items) (suc i) = counts items i

length-names : (ps : List PipeInfo) → length (names ps) ≡ length ps
unfolding names
length-names [] = refl
length-names (p ∷ ps) = ap suc (length-names ps)

pub pipes_at-modules : (items : List Item) (i : ℕ) → pipes_at (modules items) i ≡ counts items i
pipes_at-modules [] i = refl
pipes_at-modules (it ∷ items) zero = length-names it.proc.pipes
pipes_at-modules (it ∷ items) (suc i) = pipes_at-modules items i

-- The rows of a module are the labels of its first pipes, in their order.
abbrev pub IsShown : Item → Type 0
IsShown it = (more : List Bytes) × (map row_text it.proc.pipes ≡ it.info_items ++ more)

abbrev pub AllShown : List Item → Type 0
AllShown [] = Unit {0}
AllShown (it ∷ items) = IsShown it × AllShown items

length-map : (ps : List PipeInfo) → length (map row_text ps) ≡ length ps
length-map [] = refl
length-map (p ∷ ps) = ap suc (length-map ps)

pub length-IsShown : (it : Item) → IsShown it → length it.info_items ≤ length it.proc.pipes
length-IsShown it (more, e) =
    omega (arith, length-map it.proc.pipes, ap length e, length-append it.info_items more)

pub length-KeepsPipes :
    (f : Proc → Proc) (p : Proc) → KeepsPipes f → length p.pipes ≤ length (f p).pipes
length-KeepsPipes f p keeps =
    let (more, e) = keeps p in
    omega (
      arith,
      length-map p.pipes,
      length-map (f p).pipes,
      ap length e,
      length-append (map row_text p.pipes) more,
    )

-- What keeps the pipes keeps what the rows show.
pub KeepsPipes-IsShown :
    (f : Proc → Proc) (it : Item)
    → KeepsPipes f
    → IsShown it
    → (more : List Bytes) × (map row_text (f it.proc).pipes ≡ it.info_items ++ more)
KeepsPipes-IsShown f it keeps (more, e) =
    let (rest, e') = keeps it.proc in
    (more ++ rest, e' ∙ ap (λ (t : List Bytes). t ++ rest) e ∙ append_assoc it.info_items more rest)

-- A change of the modules that takes no pipe and adds no row without one.
pub record Extends (items items' : List Item) : Type 0 where
  pub grows : (i : ℕ) → counts items i ≤ counts items' i
  pub shown : AllShown items → AllShown items'

pub modules-Grows :
    {items items' : List Item} → Extends items items' → Grows (modules items) (modules items')
modules-Grows {items} {items'} e i =
    let more = e.grows i in omega (arith, pipes_at-modules items i, pipes_at-modules items' i)

-- The same of a single module.
abbrev pub ExtendsItem : (Item → Item) → Type 0
ExtendsItem f =
    (it : Item) → (length it.proc.pipes ≤ length (f it).proc.pipes) × (IsShown it → IsShown (f it))

Extends-refl : (items : List Item) → Extends items items
Extends-refl items = record { grows = λ i. omega arith; shown = λ h. h }

pub Extends-trans : (xs ys zs : List Item) → Extends xs ys → Extends ys zs → Extends xs zs
Extends-trans xs ys zs e f = record {
  grows = λ i. let one = e.grows i in let two = f.grows i in omega arith;
  shown = λ h. f.shown (e.shown h);
}

counts-cons :
    (it it' : Item) (items items' : List Item)
    → length it.proc.pipes ≤ length it'.proc.pipes
    → ((i : ℕ) → counts items i ≤ counts items' i)
    → (i : ℕ) → counts (it ∷ items) i ≤ counts (it' ∷ items') i
counts-cons it it' items items' more g zero = more
counts-cons it it' items items' more g (suc i) = g i

Extends-cons :
    (it it' : Item) (items items' : List Item)
    → length it.proc.pipes ≤ length it'.proc.pipes
    → (IsShown it → IsShown it')
    → Extends items items'
    → Extends (it ∷ items) (it' ∷ items')
Extends-cons it it' items items' more row e = record {
  grows = counts-cons it it' items items' more e.grows;
  shown = λ (h, hs). (row h, e.shown hs);
}

pub change_at-Extends :
    (i : ℕ) (f : Item → Item) (items : List Item)
    → ExtendsItem f
    → Extends items (change_at i f items)
unfolding change_at
change_at-Extends i f [] e = Extends-refl []
change_at-Extends zero f (it ∷ items) e =
    Extends-cons it (f it) items items (e it).0 (e it).1 (Extends-refl items)
change_at-Extends (suc i) f (it ∷ items) e =
    Extends-cons it it items (change_at i f items) (omega arith) (λ h. h)
      (change_at-Extends i f items e)

pub append-Extends : (items : List Item) (it : Item) → IsShown it → Extends items (items ++ it ∷ [])
append-Extends [] it h = record { grows = λ i. omega arith; shown = λ _. (h, tt) }
append-Extends (x ∷ items) it h =
    Extends-cons x x items (items ++ it ∷ []) (omega arith) (λ k. k) (append-Extends items it h)

info_label-row_text : (p : PipeInfo) → info_label p ≡ row_text p
unfolding info_label
info_label-row_text p = elim (Bool-cases p.is_input) [
  | inl reads ↦ rw reads refl
  | inr writes ↦ rw writes refl
]

map-row_text : (ps : List PipeInfo) → map info_label ps ≡ map row_text ps
map-row_text [] = refl
map-row_text (p ∷ ps) =
    ap (λ (row : Bytes). row ∷ map info_label ps) (info_label-row_text p)
    ∙ ap (◌∷◌ (row_text p)) (map-row_text ps)

map-drop : (n : ℕ) (ps : List PipeInfo) → map row_text (drop n ps) ≡ drop n (map row_text ps)
map-drop zero ps = refl
map-drop (suc n) [] = refl
map-drop (suc n) (p ∷ ps) = map-drop n ps

-- After an update the rows are the labels of all pipes.
pub update_pipe_subtree-info_items :
    (it : Item) → IsShown it → (update_pipe_subtree it).info_items ≡ map row_text it.proc.pipes
unfolding update_pipe_subtree
update_pipe_subtree-info_items it (more, e) =
    ap (◌++◌ it.info_items) (
      map-row_text (drop (length it.info_items) it.proc.pipes)
      ∙ map-drop (length it.info_items) it.proc.pipes
      ∙ ap (drop (length it.info_items)) e
      ∙ drop-length-append it.info_items more)
    ∙ sym e

pub activate_subtree-IsShown : (name : Bytes) (proc : Proc) → IsShown (activate_subtree name proc)
unfolding activate_subtree update_pipe_subtree
activate_subtree-IsShown name proc =
    ([], sym (map-row_text proc.pipes) ∙ sym (append-nil (map info_label proc.pipes)))

show_status-ExtendsItem : ExtendsItem show_status
unfolding update_pipe_subtree
show_status-ExtendsItem it =
    (omega arith, λ h. ([], sym (update_pipe_subtree-info_items it h) ∙ sym (append-nil _)))

pub show_all_status-Extends :
    (is : List ℕ) (items : List Item) → Extends items (show_all_status is items)
unfolding show_all_status
show_all_status-Extends [] items = Extends-refl items
show_all_status-Extends (i ∷ is) items =
    Extends-trans items (change_at i show_status items) _
      (change_at-Extends i show_status items show_status-ExtendsItem)
      (show_all_status-Extends is (change_at i show_status items))

pub after_all-Extends :
    (after : ℕ → Proc → Proc) (i : ℕ) (items : List Item)
    → ((k : ℕ) → KeepsPipes (after k))
    → Extends items (after_all after i items)
unfolding after_all
after_all-Extends after i [] k = Extends-refl []
after_all-Extends after i (it ∷ items) k =
    Extends-cons it (record it { proc = after i it.proc }) items (after_all after (i + 1) items)
      (length-KeepsPipes (after i) it.proc (k i)) (KeepsPipes-IsShown (after i) it (k i))
      (after_all-Extends after (i + 1) items k)

pub start_all-Extends :
    (start : Proc → Proc) (items : List Item)
    → KeepsPipes start
    → Extends items (start_all start items)
unfolding start_all
start_all-Extends start [] k = Extends-refl []
start_all-Extends start (it ∷ items) k = elim (Bool-cases (is_idle it.proc)) [
  | inl idle ↦ rw idle (
      Extends-cons it _ items (start_all start items) (length-KeepsPipes start it.proc k)
        (KeepsPipes-IsShown start it k) (start_all-Extends start items k))
  | inr busy ↦ rw busy (
      Extends-cons it it items (start_all start items) (omega arith) (λ h. h)
        (start_all-Extends start items k))
]

pub kill_selected-Extends :
    (kill : Proc → Proc) (selection : List TreeItem) (items : List Item)
    → KeepsPipes kill
    → Extends items (kill_selected kill selection items)
unfolding kill_selected
kill_selected-Extends kill [] items k = Extends-refl items
kill_selected-Extends kill (process_item i ∷ selection) items k =
    let changed = change_at i (λ it. record it { proc = kill it.proc }) items in
    Extends-trans items changed _
      (change_at-Extends i _ items
        (λ it. (length-KeepsPipes kill it.proc k, KeepsPipes-IsShown kill it k)))
      (kill_selected-Extends kill selection changed k)
kill_selected-Extends kill (info_item i j ∷ selection) items k =
    kill_selected-Extends kill selection items k
kill_selected-Extends kill (other_item ∷ selection) items k =
    kill_selected-Extends kill selection items k
