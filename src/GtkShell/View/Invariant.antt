-- ===== src/GtkShell/View/Invariant.antt =====
-- What holds of `ProcessView` of src/gtkshell.cc after any handlers, in any order.
use modglue.Common.{
  ℕ, ◌≤◌, ◌<◌, ◌≡◌, sym, ◌∙◌, inl, inr, List, [], ◌∷◌, ◌++◌, length, length-append, arith,
  Bool-cases, Option, none, some, ok, >>=-eq-ok, ◌==◌,
}
use modglue.GtkShell.Table.Valid.{AreBonds}
use modglue.GtkShell.Table.Kept.{AreBonds-Grows, AreBonds-append}
use modglue.GtkShell.View.{
  View, toggle_event, change_at, watch_all, unwatch_all, cb_run_proc, start_all, changed_fds, Told,
  after_all, show_all_status, io_callback,
}
use modglue.GtkShell.View.Events.{
  TreeItem, all_sels, cb_connect, cb_kill_proc, kill_selected, cb_remove_bonds, remove_selected,
  remove_item, KeepsPipes, Step, toggles, adds, runs, kills, connects, removes, asks, told, Reach,
  here, next,
}
use modglue.GtkShell.View.Selection.{all_sels-IsBond}
use modglue.GtkShell.View.Changes.{
  ChangesModules, watch_all-SameTables, unwatch_all-SameTables, toggle_event-ExtendsItem,
  watched-ChangesModules, changed-ChangesModules, cb_add_proc-ChangesModules,
  inforeq_cb-ChangesModules,
}
use modglue.GtkShell.View.Rows.{
  modules, AllShown, Extends-trans, modules-Grows, change_at-Extends, show_all_status-Extends,
  after_all-Extends, start_all-Extends, kill_selected-Extends,
}

-- Each of the numbers is below a size.
abbrev pub AllBelow : ℕ → List ℕ → Type 0
AllBelow size [] = Unit {0}
AllBelow size (b ∷ bs) = (b < size) × AllBelow size bs

-- The rows of a module stand for pipes of it, the ends of a bond are pipes of modules, and the tree of
-- bonds shows bonds that there are.
pub record IsConsistent (v : View) : Type 0 where
  pub rows : AllShown v.processes
  pub linked : AreBonds (modules v.processes) v.bonds
  pub listed : AllBelow (length v.bonds) v.shown_bonds

ChangesModules-IsConsistent : {v v' : View} → ChangesModules v v' → IsConsistent v → IsConsistent v'
ChangesModules-IsConsistent {v} {v'} c is = record {
  rows = c.extended.shown is.rows;
  linked = rw c.same_bonds (
      AreBonds-Grows (modules v.processes) (modules v'.processes) v.bonds (modules-Grows c.extended)
        is.linked);
  listed = rw (c.same_bonds, c.same_shown) is.listed;
}

AllBelow-append :
    (size size' : ℕ) (bs : List ℕ) (b : ℕ)
    → size ≤ size'
    → b < size'
    → AllBelow size bs
    → AllBelow size' (bs ++ b ∷ [])
AllBelow-append size size' [] b more h hs = (h, tt)
AllBelow-append size size' (c ∷ bs) b more h (k, ks) =
    (omega arith, AllBelow-append size size' bs b more h ks)

cb_connect-IsConsistent :
    (selection : List TreeItem) (v : View) → IsConsistent v → IsConsistent (cb_connect selection v)
unfolding cb_connect
cb_connect-IsConsistent selection v is =
    let bond = all_sels v.processes selection in
    let one_more = length-append {0} v.bonds (bond ∷ []) in
    record {
      rows = is.rows;
      linked =
          AreBonds-append (modules v.processes) v.bonds bond is.linked
            (all_sels-IsBond v.processes selection is.rows);
      listed =
          AllBelow-append (length v.bonds) (length (v.bonds ++ bond ∷ [])) v.shown_bonds
            (length v.bonds) (omega arith) (omega arith) is.listed;
    }

remove_item-AllBelow :
    (size b : ℕ) (shown : List ℕ) → AllBelow size shown → AllBelow size (remove_item b shown)
unfolding remove_item
remove_item-AllBelow size b [] h = tt
remove_item-AllBelow size b (c ∷ shown) (h, hs) = elim (Bool-cases (c == b)) [
  | inl same ↦ rw same hs
  | inr other ↦ rw other (h, remove_item-AllBelow size b shown hs)
]

remove_selected-AllBelow :
    (size : ℕ) (selection : List (Option ℕ)) (shown : List ℕ)
    → AllBelow size shown
    → AllBelow size (remove_selected selection shown)
unfolding remove_selected
remove_selected-AllBelow size [] shown h = h
remove_selected-AllBelow size (none ∷ selection) shown h =
    remove_selected-AllBelow size selection shown h
remove_selected-AllBelow size (some b ∷ selection) shown h =
    remove_selected-AllBelow size selection (remove_item b shown)
      (remove_item-AllBelow size b shown h)

io_callback-ChangesModules :
    (t : Told) (v : View) {v' : View}
    → ((i : ℕ) → KeepsPipes (t.after i))
    → io_callback t v ≡ ok v'
    → ChangesModules v v'
unfolding io_callback
io_callback-ChangesModules t v {v'} keeps h =
    let items = after_all t.after 0 v.processes in
    let added = watch_all t.addfds (record v { processes = items }) in
    let (w, removed, e) = >>=-eq-ok (unwatch_all t.remfds added) _ h in
    let one = watch_all-SameTables t.addfds (record v { processes = items }) in
    let two = unwatch_all-SameTables t.remfds added removed in
    let same : record w { processes = show_all_status t.proc w.processes } ≡ v' = cc in
    let kept : w.processes ≡ items = two.same_processes ∙ one.same_processes in
    rw (sym same) (record {
      extended = rw kept (
          Extends-trans v.processes items (show_all_status t.proc items)
            (after_all-Extends t.after 0 v.processes keeps) (show_all_status-Extends t.proc items));
      same_bonds = two.same_bonds ∙ one.same_bonds;
      same_shown = two.same_shown ∙ one.same_shown;
    })

Step-IsConsistent : {v v' : View} → Step v v' → IsConsistent v → IsConsistent v'
unfolding cb_run_proc cb_kill_proc cb_remove_bonds
Step-IsConsistent (toggles i b onoff v) is =
    ChangesModules-IsConsistent
      (changed-ChangesModules (change_at i (toggle_event b onoff) v.processes) v
        (change_at-Extends i (toggle_event b onoff) v.processes (toggle_event-ExtendsItem b onoff)))
      is
Step-IsConsistent (adds procname newid loaded v) is =
    ChangesModules-IsConsistent (cb_add_proc-ChangesModules procname newid loaded v) is
Step-IsConsistent (runs start v keeps) is =
    ChangesModules-IsConsistent
      (watched-ChangesModules (changed_fds start v.processes) (start_all start v.processes) v
        (start_all-Extends start v.processes keeps))
      is
Step-IsConsistent (kills kill selection v keeps) is =
    ChangesModules-IsConsistent
      (changed-ChangesModules (kill_selected kill selection v.processes) v
        (kill_selected-Extends kill selection v.processes keeps))
      is
Step-IsConsistent (connects selection v) is = cb_connect-IsConsistent selection v is
Step-IsConsistent (removes selection v) is = record {
  rows = is.rows;
  linked = is.linked;
  listed = remove_selected-AllBelow (length v.bonds) selection v.shown_bonds is.listed;
}
Step-IsConsistent (asks a inf v keeps) is =
    ChangesModules-IsConsistent (inforeq_cb-ChangesModules a inf v keeps) is
Step-IsConsistent (told t v v' keeps h) is =
    ChangesModules-IsConsistent (io_callback-ChangesModules t v keeps h) is

-- Whatever the user does and the pipes tell, in whatever order, as long as no handler throws: the rows
-- of a module are the names and directions of its first pipes, in their order, each end of each bond is a pipe of a module that there is, and
-- the tree of bonds shows bonds that there are. This holds where it holds at the start, and where the
-- loader keeps the pipes of a process and adds others only behind them.
pub Reach-IsConsistent : {v v' : View} → Reach v v' → IsConsistent v → IsConsistent v'
Reach-IsConsistent here is = is
Reach-IsConsistent (next r step) is = Step-IsConsistent step (Reach-IsConsistent r is)
