-- ===== src/GtkShell/View/Changes.antt =====
-- The handlers of src/gtkshell.cc that change the modules, and no bond.
use modglue.Common.{
  ℕ, ◌≡◌, refl, sym, inl, inr, List, [], ◌∷◌, ◌++◌, Bytes, not, ◌&&◌, arith, Bool-cases, some, ok,
  ◌==◌, equal, false, Bool, codes, take, drop, if◌then◌else◌, Option-cases,
}
use modglue.ExtProcess.Setup.{is_nil}
use modglue.GtkShell.View.{
  Proc, Item, View, activate_subtree, Toggle, toggle_start_on_input, toggle_abort_on_failed_write,
  toggle_restart_after_exit, toggle_event, watch, watch_all, unwatch_all, cb_add_proc, is_present,
}
use modglue.GtkShell.View.Events.{Asked, add_asked, without_newline, inforeq_cb, KeepsPipes}
use modglue.GtkShell.View.Rows.{
  Extends, ExtendsItem, append-Extends, activate_subtree-IsShown, KeepsPipes-IsShown,
}

-- A change of the modules only, apart from the watched descriptors.
pub record ChangesModules (v v' : View) : Type 0 where
  pub extended : Extends v.processes v'.processes
  pub same_bonds : v'.bonds ≡ v.bonds
  pub same_shown : v'.shown_bonds ≡ v.shown_bonds

-- Watching changes no module and no bond.
pub record SameTables (v v' : View) : Type 0 where
  pub same_processes : v'.processes ≡ v.processes
  pub same_bonds : v'.bonds ≡ v.bonds
  pub same_shown : v'.shown_bonds ≡ v.shown_bonds

pub watch_all-SameTables : (fds : List ℕ) (v : View) → SameTables v (watch_all fds v)
unfolding watch_all watch
watch_all-SameTables [] v = record { same_processes = refl; same_bonds = refl; same_shown = refl }
watch_all-SameTables (fd ∷ fds) v =
    let rest = watch_all-SameTables fds (watch fd v) in
    record {
      same_processes = rest.same_processes;
      same_bonds = rest.same_bonds;
      same_shown = rest.same_shown;
    }

pub unwatch_all-SameTables :
    (fds : List ℕ) (v : View) {v' : View} → unwatch_all fds v ≡ ok v' → SameTables v v'
unfolding unwatch_all
unwatch_all-SameTables [] v {v'} h =
    let same : v ≡ v' = cc in
    rw (sym same) (record { same_processes = refl; same_bonds = refl; same_shown = refl })
unwatch_all-SameTables (fd ∷ fds) v {v'} h = elim (Option-cases (v.fdhandlers fd)) [
  | inl missing ↦ cc (rw (missing, unwatch_all) at h)
  | inr (live, there) ↦
      let without : View = record v {
        fdhandlers = λ n. if n == fd then some false else v.fdhandlers n;
      } in
      let more : unwatch_all fds without ≡ ok v' = rw (there, unwatch_all) at h in
      let rest = unwatch_all-SameTables fds without more in
      record {
        same_processes = rest.same_processes;
        same_bonds = rest.same_bonds;
        same_shown = rest.same_shown;
      }
]

pub toggle_event-ExtendsItem : (b : Toggle) (onoff : Bool) → ExtendsItem (toggle_event b onoff)
unfolding toggle_event
toggle_event-ExtendsItem toggle_start_on_input onoff it = (omega arith, λ h. h)
toggle_event-ExtendsItem toggle_abort_on_failed_write onoff it = (omega arith, λ h. h)
toggle_event-ExtendsItem toggle_restart_after_exit onoff it = (omega arith, λ h. h)

-- Modules that change, and then descriptors that are watched.
pub watched-ChangesModules :
    (fds : List ℕ) (items : List Item) (v : View)
    → Extends v.processes items
    → ChangesModules v (watch_all fds (record v { processes = items }))
watched-ChangesModules fds items v e =
    let same = watch_all-SameTables fds (record v { processes = items }) in
    record {
      extended = rw same.same_processes e;
      same_bonds = same.same_bonds;
      same_shown = same.same_shown;
    }

pub changed-ChangesModules :
    (items : List Item) (v : View)
    → Extends v.processes items
    → ChangesModules v (record v { processes = items })
changed-ChangesModules items v e = record { extended = e; same_bonds = refl; same_shown = refl }

unchanged-ChangesModules : (v : View) → ChangesModules v v
unchanged-ChangesModules v = record {
  extended = record { grows = λ i. omega arith; shown = λ h. h };
  same_bonds = refl;
  same_shown = refl;
}

pub cb_add_proc-ChangesModules :
    (procname newid : Bytes) (loaded : Proc) (v : View)
    → ChangesModules v (cb_add_proc procname newid loaded v)
unfolding cb_add_proc
cb_add_proc-ChangesModules procname newid loaded v =
    let proc =
      if not (is_nil newid) && not (equal newid procname)
      then record loaded { id = newid }
      else loaded in
    elim (Bool-cases (is_present proc.id v.processes)) [
      | inl there ↦ rw there (unchanged-ChangesModules v)
      | inr new ↦ rw new (
          changed-ChangesModules (v.processes ++ activate_subtree procname proc ∷ []) v (
            append-Extends v.processes (activate_subtree procname proc)
              (activate_subtree-IsShown procname proc)))
    ]

add_asked-ChangesModules :
    (a : Asked) (obj : Bytes) (v : View)
    → KeepsPipes (λ p. (a.forward p).0)
    → ChangesModules v (add_asked a obj v)
unfolding add_asked
add_asked-ChangesModules a obj v keeps =
    let name = without_newline obj in
    let it = activate_subtree name (a.load name) in
    let shown = activate_subtree-IsShown name (a.load name) in
    watched-ChangesModules (a.forward it.proc).1
      (v.processes ++ record it { proc = (a.forward it.proc).0 } ∷ []) v
      (append-Extends v.processes (record it { proc = (a.forward it.proc).0 })
        (KeepsPipes-IsShown (λ p. (a.forward p).0) it keeps shown))

pub inforeq_cb-ChangesModules :
    (a : Asked) (inf : Bytes) (v : View)
    → KeepsPipes (λ p. (a.forward p).0)
    → ChangesModules v (inforeq_cb a inf v).0
unfolding inforeq_cb
inforeq_cb-ChangesModules a inf v keeps =
    elim (Bool-cases (equal (take 10 inf) (codes "list-pipes"))) [
      | inl pipes ↦ rw pipes (unchanged-ChangesModules v)
      | inr no_pipes ↦ elim (Bool-cases (equal (take 10 inf) (codes "list-bonds"))) [
        | inl bonds ↦ rw (no_pipes, bonds) (unchanged-ChangesModules v)
        | inr no_bonds ↦ elim (Bool-cases (equal (take 4 inf) (codes "add "))) [
          | inl adding ↦
              rw (no_pipes, no_bonds, adding) (add_asked-ChangesModules a (drop 4 inf) v keeps)
          | inr unknown ↦ rw (no_pipes, no_bonds, unknown) (unchanged-ChangesModules v)
        ]
      ]
    ]
