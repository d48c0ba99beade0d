-- ===== src/GtkShell/View/Tests.antt =====
-- The theorems on the handlers of the graphical shell, at concrete inputs.
use modglue.Common.{
  sym, append-nil, map, ℕ, ◌≡◌, ◌⊎◌, refl, true, false, [], ◌∷◌, none, some, codes, ok, throw,
}
use modglue.GtkShell.View.{
  PipeInfo, Proc, Item, View, is_idle, cb_run_proc, cb_add_proc, Told, io_callback,
}
use modglue.GtkShell.View.Events.{
  info_item, cb_connect, here, next, adds, connects, runs, KeepsPipes, row_text,
}
use modglue.GtkShell.View.Invariant.{IsConsistent, Reach-IsConsistent}
use modglue.GtkShell.View.Watched.{
  is_in, with_added, with_removed, io_callback-fdhandlers, cb_run_proc-fdhandlers,
}

abbrev out : PipeInfo
out = record { name = codes "stdout"; is_input = false; fd = some 7 }

abbrev ls : Proc
ls = record {
  name = codes "ls";
  id = codes "ls";
  pipes = out ∷ [];
  pid = 0;
  has_sockets = false;
  start_on_input = false;
  abort_on_failed_write = false;
  restart_after_exit = false;
}

abbrev empty : View
empty = record { processes = []; bonds = []; shown_bonds = []; fdhandlers = λ n. none; stray = [] }

abbrev start : Proc → Proc
start p = record p { pid = 42 }

-- A module is added, the row of its pipe is bonded, and the module is run.
abbrev added : View
added = cb_add_proc (codes "ls") [] ls empty

abbrev bonded : View
bonded = cb_connect (info_item 0 0 ∷ []) added

start-KeepsPipes : KeepsPipes start
start-KeepsPipes p = ([], sym (append-nil (map row_text p.pipes)))

Reach-IsConsistent_example : IsConsistent (cb_run_proc start bonded)
Reach-IsConsistent_example =
    Reach-IsConsistent {v = empty} {v' = cb_run_proc start bonded}
      (next (next (next here (adds (codes "ls") [] ls empty)) (connects (info_item 0 0 ∷ []) added))
        (runs start bonded start-KeepsPipes))
      (record { rows = tt; linked = tt; listed = tt })

abbrev moved : Told
moved = record { after = λ i p. p; proc = []; remfds = 7 ∷ []; addfds = 9 ∷ [] }

io_callback-fdhandlers_example :
    ((v' : View) × (io_callback moved bonded ≡ ok v')
      × ((n : ℕ)
          → v'.fdhandlers n ≡ with_removed (7 ∷ []) (with_added (9 ∷ []) bonded.fdhandlers) n))
    ⊎ ((n : ℕ) × (io_callback moved bonded
          ≡ throw (codes "ordered to remove fd from select loop which was not added"))
        × (is_in n (7 ∷ []) ≡ true)
        × (is_in n (9 ∷ []) ≡ false)
        × (bonded.fdhandlers n ≡ none))
io_callback-fdhandlers_example = io_callback-fdhandlers moved bonded

abbrev shown_ls : Item
shown_ls = record { proc = ls; label = codes "ls"; info_items = codes "   stdout (output)" ∷ [] }

abbrev one_module : View
one_module = record empty { processes = shown_ls ∷ [] }

ls-is_idle : is_idle ls ≡ true
unfolding is_idle
ls-is_idle = refl

cb_run_proc-fdhandlers_example : (cb_run_proc start one_module).fdhandlers 7 ≡ some true
cb_run_proc-fdhandlers_example =
    cb_run_proc-fdhandlers start one_module [] [] shown_ls [] [] out 7 refl ls-is_idle refl refl
      refl
