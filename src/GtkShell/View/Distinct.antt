-- ===== src/GtkShell/View/Distinct.antt =====
-- The identifiers of the modules in `ProcessView` of src/gtkshell.cc.
use modglue.Common.{
  ◌≡◌, ◌≢◌, refl, sym, inl, inr, Bool, true, false, ◌||◌, ◌&&◌, not, List, [], ◌∷◌, ◌++◌, Bytes,
  equal, equal_iff, Bool-cases, if◌then◌else◌, arith,
}
use modglue.ExtProcess.Setup.{is_nil}
use modglue.GtkShell.View.{
  Proc, Item, View, activate_subtree, update_pipe_subtree, is_present, cb_add_proc,
}

-- No item has this identifier.
abbrev pub AreOthers : Bytes → List Item → Type 0
AreOthers id [] = Unit {0}
AreOthers id (it ∷ items) = (it.proc.id ≢ id) × AreOthers id items

abbrev pub AreDistinct : List Item → Type 0
AreDistinct [] = Unit {0}
AreDistinct (it ∷ items) = AreOthers it.proc.id items × AreDistinct items

||-false : (b c : Bool) → (b || c) ≡ false → (b ≡ false) × (c ≡ false)
||-false false c h = (refl, h)
||-false true c h = ground arith

equal-false : (a b : Bytes) → equal a b ≡ false → a ≢ b
equal-false a b h same = ground (equal_iff a b, arith)

is_present-AreOthers :
    (id : Bytes) (items : List Item) → is_present id items ≡ false → AreOthers id items
unfolding is_present
is_present-AreOthers id [] h = tt
is_present-AreOthers id (it ∷ items) h =
    let (this, rest) =
      ||-false (equal it.proc.id id || equal it.proc.name id) (is_present id items) h in
    (
      equal-false it.proc.id id (||-false (equal it.proc.id id) (equal it.proc.name id) this).0,
      is_present-AreOthers id items rest,
    )

AreOthers-append :
    (id : Bytes) (items : List Item) (it : Item)
    → AreOthers id items
    → it.proc.id ≢ id
    → AreOthers id (items ++ it ∷ [])
AreOthers-append id [] it h other = (other, tt)
AreOthers-append id (x ∷ items) it (h, hs) other = (h, AreOthers-append id items it hs other)

AreDistinct-append :
    (items : List Item) (it : Item)
    → AreDistinct items
    → AreOthers it.proc.id items
    → AreDistinct (items ++ it ∷ [])
AreDistinct-append [] it h others = (tt, tt)
AreDistinct-append (x ∷ items) it (h, hs) (o, os) = (
  AreOthers-append x.proc.id items it h (λ same. o (sym same)),
  AreDistinct-append items it hs os,
)

-- The end of `cb_add_proc`, on the loaded process.
add-AreDistinct :
    (procname : Bytes) (proc : Proc) (v : View)
    → AreDistinct v.processes
    → AreDistinct
        (if is_present proc.id v.processes then v else record v {
          processes = v.processes ++ activate_subtree procname proc ∷ [];
        }).processes
unfolding activate_subtree update_pipe_subtree
add-AreDistinct procname proc v h = elim (Bool-cases (is_present proc.id v.processes)) [
  | inl present ↦ rw present h
  | inr absent ↦ rw absent (
      AreDistinct-append v.processes (activate_subtree procname proc) h
        (is_present-AreOthers proc.id v.processes absent))
]

-- `cb_add_proc` keeps the identifiers apart, whatever the loader makes of the text.
cb_add_proc-AreDistinct :
    (procname newid : Bytes) (loaded : Proc) (v : View)
    → AreDistinct v.processes
    → AreDistinct (cb_add_proc procname newid loaded v).processes
unfolding cb_add_proc
cb_add_proc-AreDistinct procname newid loaded v h =
    add-AreDistinct procname
      (if not (is_nil newid) && not (equal newid procname)
        then record loaded { id = newid }
        else loaded)
      v h
