-- ===== src/GtkShell/View/Events.antt =====
-- The other handlers of `ProcessView` of src/gtkshell.cc, which work on what is selected in the trees or
-- on what is read from the pipe `inforeq`; and all handlers as steps, in any order.
use modglue.Common.{
  ℕ, ◌+◌, ◌-◌, ◌≡◌, Bool, false, ◌&&◌, List, [], ◌∷◌, ◌++◌, Option, none, some, Bytes, codes, equal,
  ◌==◌, if◌then◌else◌, take, drop, map, length, get_or, pop_back, ok,
}
use modglue.GtkShell.View.{
  PipeInfo, Proc, Item, View, activate_subtree, Toggle, toggle_event, change_at, watch_all,
  cb_add_proc, cb_run_proc, Told, io_callback,
}

-- An item that is selected in the tree of modules: a module, the row of a pipe of a module, or
-- another one, such as a check button.
pub data TreeItem : Type 0 where
  process_item : ℕ → TreeItem
  info_item : ℕ → ℕ → TreeItem
  other_item : TreeItem

abbrev pub is_process_item : ℕ → TreeItem → Bool
is_process_item k (process_item i) = i == k
is_process_item k _ = false

abbrev pub is_info_item : ℕ → ℕ → TreeItem → Bool
is_info_item k m (info_item i j) = (i == k) && (j == m)
is_info_item k m _ = false

-- The inner loop of `cb_connect`, over the rows of module `k` from row `m` on.
unfoldable pub sels_in_rows : ℕ → ℕ → List Bytes → TreeItem → List (ℕ × ℕ)
sels_in_rows k m [] item = []
sels_in_rows k m (row ∷ rows) item =
    (if is_info_item k m item then (k, m) ∷ [] else []) ++ sels_in_rows k (m + 1) rows item

-- The loop over the modules, from module `k` on.
unfoldable pub sels_of : ℕ → List Item → TreeItem → List (ℕ × ℕ)
unfolding sels_in_rows
sels_of k [] item = []
sels_of k (it ∷ items) item =
    if is_process_item k item
    then []
    else sels_in_rows k 0 it.info_items item ++ sels_of (k + 1) items item

-- The loop over the selection.
unfoldable pub all_sels : List Item → List TreeItem → List (ℕ × ℕ)
unfolding sels_of
all_sels items [] = []
all_sels items (item ∷ selection) = sels_of 0 items item ++ all_sels items selection

unfoldable pub cb_connect : List TreeItem → View → View
unfolding all_sels
cb_connect selection v = record v {
  bonds = v.bonds ++ all_sels v.processes selection ∷ [];
  shown_bonds = v.shown_bonds ++ length v.bonds ∷ [];
}

-- `cb_kill_proc`. How the loader kills a process is an argument.
unfoldable pub kill_selected : (Proc → Proc) → List TreeItem → List Item → List Item
unfolding change_at
kill_selected kill [] items = items
kill_selected kill (process_item k ∷ selection) items =
    kill_selected kill selection (change_at k (λ it. record it { proc = kill it.proc }) items)
kill_selected kill (_ ∷ selection) items = kill_selected kill selection items

unfoldable pub cb_kill_proc : (Proc → Proc) → List TreeItem → View → View
unfolding kill_selected
cb_kill_proc kill selection v = record v { processes = kill_selected kill selection v.processes }

-- The first one that is equal is taken out.
unfoldable pub remove_item : ℕ → List ℕ → List ℕ
remove_item b [] = []
remove_item b (c ∷ shown) = if c == b then shown else c ∷ remove_item b shown

-- `cb_remove_bonds`, on the bonds that are selected; of other items there is `none`. `bonds_` keeps the
-- bond. That the widget takes a removed item out of the selection, over which the code's loop still
-- runs, is left out.
unfoldable pub remove_selected : List (Option ℕ) → List ℕ → List ℕ
unfolding remove_item
remove_selected [] shown = shown
remove_selected (none ∷ selection) shown = remove_selected selection shown
remove_selected (some b ∷ selection) shown = remove_selected selection (remove_item b shown)

unfoldable pub cb_remove_bonds : List (Option ℕ) → View → View
unfolding remove_selected
cb_remove_bonds selection v = record v { shown_bonds = remove_selected selection v.shown_bonds }

-- What `inforeq_cb` makes of its text: how `load` makes a process of a command, and what
-- `create_forward_pipes` makes of it, with the descriptors to add. The text of `list-pipes` is
-- the list of the pipes of `main`.
pub record Asked : Type 0 where
  pub pipe_list : Bytes
  pub load : Bytes → Proc
  pub forward : Proc → Proc × List ℕ

-- A text without the newline at its end; of an empty one the code reads a byte out of its bounds.
unfoldable pub without_newline : Bytes → Bytes
without_newline obj = if get_or obj (length obj - 1) 0 == b'\n' then pop_back obj else obj

-- The branch `add `.
unfoldable pub add_asked : Asked → Bytes → View → View
unfolding activate_subtree watch_all without_newline
add_asked a obj v =
    let it = activate_subtree (without_newline obj) (a.load (without_newline obj)) in
    let (proc, addfds) = a.forward it.proc in
    watch_all addfds (record v { processes = v.processes ++ record it { proc = proc } ∷ [] })

-- `inforeq_cb`, and the texts that it sends to `infodump`.
unfoldable pub inforeq_cb : Asked → Bytes → View → View × List Bytes
unfolding add_asked
inforeq_cb a inf v =
    if equal (take 10 inf) (codes "list-pipes")
    then (v, a.pipe_list ∷ [])
    else if equal (take 10 inf) (codes "list-bonds")
    then (v, [])
    else if equal (take 4 inf) (codes "add ")
    then (add_asked a (drop 4 inf) v, (codes "adding " ++ drop 4 inf) ∷ codes "creating" ∷ [])
    else (v, [])

-- The row that a pipe should have: its name between three spaces and its direction.
abbrev pub row_text : PipeInfo → Bytes
row_text p = 32 ∷ 32 ∷ 32 ∷ (p.name ++ codes (if p.is_input then " (input)" else " (output)"))

-- The loader takes no pipe away from a process, as the comment at `update_pipe_subtree` says, and adds
-- pipes behind those that there are.
abbrev pub KeepsPipes : (Proc → Proc) → Type 0
KeepsPipes f =
    (p : Proc) → (more : List Bytes) × (map row_text (f p).pipes ≡ map row_text p.pipes ++ more)

-- A handler that returns.
pub data Step : View → View → Type 0 where
  toggles :
      (i : ℕ) (b : Toggle) (onoff : Bool) (v : View)
      → Step v (record v { processes = change_at i (toggle_event b onoff) v.processes })
  adds :
      (procname newid : Bytes) (loaded : Proc) (v : View)
      → Step v (cb_add_proc procname newid loaded v)
  runs : (start : Proc → Proc) (v : View) → KeepsPipes start → Step v (cb_run_proc start v)
  kills :
      (kill : Proc → Proc) (selection : List TreeItem) (v : View)
      → KeepsPipes kill
      → Step v (cb_kill_proc kill selection v)
  connects : (selection : List TreeItem) (v : View) → Step v (cb_connect selection v)
  removes : (selection : List (Option ℕ)) (v : View) → Step v (cb_remove_bonds selection v)
  asks :
      (a : Asked) (inf : Bytes) (v : View)
      → KeepsPipes (λ p. (a.forward p).0)
      → Step v (inforeq_cb a inf v).0
  told :
      (t : Told) (v v' : View)
      → ((i : ℕ) → KeepsPipes (t.after i))
      → io_callback t v ≡ ok v'
      → Step v v'

pub data Reach (v : View) : View → Type 0 where
  here : Reach v v
  next : {w u : View} → Reach v w → Step w u → Reach v u
