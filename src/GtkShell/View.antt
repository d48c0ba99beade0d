-- ===== src/GtkShell/View.antt =====
-- `ProcessView` of src/gtkshell.cc and its items: what its handlers do to the modules, the bonds and
-- the watched descriptors. The classes of a module and of the loader are not in the repository: what
-- the loader makes of a module is an argument of the handlers. Of the widgets the model keeps the
-- labels and the rows.
pub mod Events
pub mod Rows
pub mod Selection
pub mod Changes
pub mod Invariant
pub mod Watched
pub mod Distinct
pub mod Tests
use modglue.Common.{
  ℕ, zero, suc, ◌+◌, ◌-◌, Bool, true, false, not, ◌&&◌, ◌||◌, List, [], ◌∷◌, ◌++◌, map, Option,
  none, some, Bytes, codes, equal, ◌==◌, if◌then◌else◌, drop, length, Result, ok, throw, ◌>>=◌,
}
use modglue.System.{Fd}
use modglue.ExtProcess.Setup.{is_nil}

-- `pipeinfo` and `process`, as far as the code uses them.
pub record PipeInfo : Type 0 where
  pub name : Bytes
  pub is_input : Bool
  pub fd : Fd

pub record Proc : Type 0 where
  pub name : Bytes
  pub id : Bytes
  pub pipes : List PipeInfo
  pub pid : ℕ
  pub has_sockets : Bool
  pub start_on_input : Bool
  pub abort_on_failed_write : Bool
  pub restart_after_exit : Bool

-- `ProcessItem`: its process, its label, and the labels of its rows, one for an `InfoItem`.
pub record Item : Type 0 where
  pub proc : Proc
  pub label : Bytes
  pub info_items : List Bytes

-- `ProcessView`. Each descriptor in `fdhandlers_` has a connection, which is live (`true`) or was
-- disconnected. `stray` are the descriptors of live connections that another one took the place of
-- in the map. `shown_bonds` are the places in `bonds_` of the bonds in the tree.
pub record View : Type 0 where
  pub processes : List Item
  pub bonds : List (List (ℕ × ℕ))
  pub shown_bonds : List ℕ
  pub fdhandlers : ℕ → Option Bool
  pub stray : List ℕ

-- The text of an `InfoItem`.
unfoldable pub info_label : PipeInfo → Bytes
info_label inf =
    codes "   " ++ (inf.name ++ (if inf.is_input then codes " (input)" else codes " (output)"))

unfoldable pub update_pipe_subtree : Item → Item
update_pipe_subtree it = record it {
  info_items = it.info_items ++ map info_label (drop (length it.info_items) it.proc.pipes);
}

-- A new `ProcessItem` and its `activate_subtree`.
unfoldable pub activate_subtree : Bytes → Proc → Item
unfolding update_pipe_subtree
activate_subtree name proc =
    update_pipe_subtree (record { proc = proc; label = name; info_items = [] })

-- The check buttons of a module.
pub data Toggle : Type 0 where
  toggle_start_on_input toggle_abort_on_failed_write toggle_restart_after_exit : Toggle

unfoldable pub toggle_event : Toggle → Bool → Item → Item
toggle_event toggle_start_on_input onoff it = record it {
  proc = record it.proc { start_on_input = onoff };
}
toggle_event toggle_abort_on_failed_write onoff it = record it {
  proc = record it.proc { abort_on_failed_write = onoff };
}
toggle_event toggle_restart_after_exit onoff it = record it {
  proc = record it.proc { restart_after_exit = onoff };
}

-- A change of the item at a place.
unfoldable pub change_at : ℕ → (Item → Item) → List Item → List Item
change_at i f [] = []
change_at zero f (it ∷ items) = f it ∷ items
change_at (suc i) f (it ∷ items) = it ∷ change_at i f items

-- `fdhandlers_[fd]=Gtk::Main::input.connect(...)`. The old connection stays as it is.
unfoldable pub watch : ℕ → View → View
watch fd v = record v {
  fdhandlers = λ n. if n == fd then some true else v.fdhandlers n;
  stray = elim (v.fdhandlers fd) [ some true ↦ fd ∷ v.stray | _ ↦ v.stray ];
}

unfoldable pub watch_all : List ℕ → View → View
unfolding watch
watch_all [] v = v
watch_all (fd ∷ fds) v = watch_all fds (watch fd v)

-- The loop over `remfds` of `io_callback`.
unfoldable pub unwatch_all : List ℕ → View → Result View
unwatch_all [] v = ok v
unwatch_all (fd ∷ fds) v =
    let rest =
      unwatch_all fds
        (record v { fdhandlers = λ n. if n == fd then some false else v.fdhandlers n }) in
    elim (v.fdhandlers fd) [
      | none ↦ throw (codes "ordered to remove fd from select loop which was not added")
      | some live ↦ rest
    ]

-- Whether a module with this identifier is there.
unfoldable pub is_present : Bytes → List Item → Bool
is_present id [] = false
is_present id (it ∷ items) = equal it.proc.id id || equal it.proc.name id || is_present id items

-- `cb_add_proc`, on the texts of the two entries and the process that `load` makes.
unfoldable pub cb_add_proc : Bytes → Bytes → Proc → View → View
unfolding is_present activate_subtree
cb_add_proc procname newid loaded v =
    let proc =
      if not (is_nil newid) && not (equal newid procname)
      then record loaded { id = newid }
      else loaded in
    if is_present proc.id v.processes
    then v
    else record v { processes = v.processes ++ activate_subtree procname proc ∷ [] }

-- Whether `cb_run_proc` starts a module.
unfoldable pub is_idle : Proc → Bool
is_idle p = not p.has_sockets && (p.pid == 0)

-- The label of a started module.
unfoldable pub run_label : Proc → Bytes
run_label p = p.name ++ (if p.start_on_input then codes " (standby)" else codes " (running)")

-- The first loop of `cb_run_proc`. How the loader starts a process is an argument.
unfoldable pub start_all : (Proc → Proc) → List Item → List Item
unfolding is_idle run_label
start_all start [] = []
start_all start (it ∷ items) =
    (if is_idle it.proc
      then record it { proc = start it.proc; label = run_label (start it.proc) }
      else it)
    ∷ start_all start items

-- The descriptors of a module's output pipes.
unfoldable pub output_fds : List PipeInfo → List ℕ
output_fds [] = []
output_fds (p ∷ ps) =
    let rest = output_fds ps in
    elim p.fd [ none ↦ rest | some fd ↦ if p.is_input then rest else fd ∷ rest ]

-- The descriptors that the second loop watches, on the modules before and after the first loop.
unfoldable pub changed_fds : (Proc → Proc) → List Item → List ℕ
unfolding is_idle output_fds
changed_fds start [] = []
changed_fds start (it ∷ items) =
    (if is_idle it.proc then output_fds (start it.proc).pipes else []) ++ changed_fds start items

unfoldable pub cb_run_proc : (Proc → Proc) → View → View
unfolding start_all changed_fds watch_all
cb_run_proc start v =
    watch_all (changed_fds start v.processes) (record v { processes = start_all start v.processes })

-- What `select_callback` of the loader does and tells: what becomes of the process at each place, the
-- places of those that changed their status, and the descriptors to remove and to add.
pub record Told : Type 0 where
  pub after : ℕ → Proc → Proc
  pub proc : List ℕ
  pub remfds : List ℕ
  pub addfds : List ℕ

unfoldable pub after_all : (ℕ → Proc → Proc) → ℕ → List Item → List Item
after_all after i [] = []
after_all after i (it ∷ items) =
    record it { proc = after i it.proc } ∷ after_all after (i + 1) items

-- The label that shows the status of a process.
unfoldable pub status_label : Proc → Bytes
status_label p =
    if p.pid == 0
    then if p.has_sockets then p.name ++ codes " (standby)" else p.name
    else p.name ++ codes " (running)"

abbrev pub show_status : Item → Item
show_status it = record (update_pipe_subtree it) { label = status_label it.proc }

unfoldable pub show_all_status : List ℕ → List Item → List Item
unfolding change_at update_pipe_subtree status_label
show_all_status [] items = items
show_all_status (i ∷ is) items = show_all_status is (change_at i show_status items)

unfoldable pub io_callback : Told → View → Result View
unfolding after_all watch_all unwatch_all show_all_status
io_callback told v = do
  v' ←
      unwatch_all told.remfds
        (watch_all told.addfds (record v { processes = after_all told.after 0 v.processes }))
  ok (record v' { processes = show_all_status told.proc v'.processes })
