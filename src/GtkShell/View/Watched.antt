-- ===== src/GtkShell/View/Watched.antt =====
-- The descriptors that `ProcessView` of src/gtkshell.cc watches.
use modglue.Common.{
  ℕ, ◌≡◌, ◌⊎◌, refl, sym, ap, ◌∙◌, inl, inr, Bool, true, false, ◌||◌, List, [], ◌∷◌, ◌++◌, Option,
  none, some, codes, ◌==◌, if◌then◌else◌, arith, ok, throw, Option-cases,
}
use modglue.GtkShell.View.{
  PipeInfo, Proc, Item, View, watch, watch_all, unwatch_all, is_idle, start_all, output_fds,
  changed_fds, cb_run_proc, Told, after_all, show_all_status, io_callback,
}

-- Whether a descriptor is in a list.
abbrev pub is_in : ℕ → List ℕ → Bool
is_in n [] = false
is_in n (fd ∷ fds) = n == fd || is_in n fds

-- What `fdhandlers_` has after descriptors were added, and after they were removed.
abbrev pub with_added : List ℕ → (ℕ → Option Bool) → ℕ → Option Bool
with_added fds handlers n = if is_in n fds then some true else handlers n

abbrev pub with_removed : List ℕ → (ℕ → Option Bool) → ℕ → Option Bool
with_removed fds handlers n = if is_in n fds then some false else handlers n

watch_all-fdhandlers :
    (fds : List ℕ) (v : View) (n : ℕ)
    → (watch_all fds v).fdhandlers n ≡ with_added fds v.fdhandlers n
unfolding watch_all
watch_all-fdhandlers [] v n = refl
watch_all-fdhandlers (fd ∷ fds) v n =
    watch_all-fdhandlers fds (watch fd v) n ∙ (unfold watch in ground arith)

-- What the loop over the descriptors to remove does: it returns where each was added at some time.
unwatch_all_cases :
    (fds : List ℕ) (v : View)
    → ((v' : View) × (unwatch_all fds v ≡ ok v')
        × ((n : ℕ) → v'.fdhandlers n ≡ with_removed fds v.fdhandlers n))
      ⊎ ((n : ℕ) × (unwatch_all fds v
            ≡ throw (codes "ordered to remove fd from select loop which was not added"))
          × (is_in n fds ≡ true)
          × (v.fdhandlers n ≡ none))
unfolding unwatch_all
unwatch_all_cases [] v = inl (v, refl, λ n. refl)
unwatch_all_cases (fd ∷ fds) v = elim (Option-cases (v.fdhandlers fd)) [
  | inl missing ↦ inr (fd, rw (missing, unwatch_all) refl, ground arith, missing)
  | inr (live, there) ↦
      let without : View = record v {
        fdhandlers = λ n. if n == fd then some false else v.fdhandlers n;
      } in
      elim (unwatch_all_cases fds without) [
        | inl (v', returned, rest) ↦
            inl (v', rw (there, unwatch_all) returned, λ n. rest n ∙ ground arith)
        | inr (n, thrown, listed, unknown) ↦
            inr (n, rw (there, unwatch_all) thrown, ground arith, ground arith)
      ]
]

-- After `io_callback` the map has a disconnected connection for each descriptor that the loader told
-- to remove, a live one for each other that it told to add, and what it had for all else. Where it
-- does not return, it throws, and then a descriptor to remove is neither among those to add nor was
-- it in the map.
pub io_callback-fdhandlers :
    (t : Told) (v : View)
    → ((v' : View) × (io_callback t v ≡ ok v')
        × ((n : ℕ) → v'.fdhandlers n ≡ with_removed t.remfds (with_added t.addfds v.fdhandlers) n))
      ⊎ ((n : ℕ) × (io_callback t v
            ≡ throw (codes "ordered to remove fd from select loop which was not added"))
          × (is_in n t.remfds ≡ true)
          × (is_in n t.addfds ≡ false)
          × (v.fdhandlers n ≡ none))
unfolding io_callback
io_callback-fdhandlers t v =
    let start : View = record v { processes = after_all t.after 0 v.processes } in
    let added = watch_all t.addfds start in
    elim (unwatch_all_cases t.remfds added) [
      | inl (w, returned, removed) ↦ inl (
        record w { processes = show_all_status t.proc w.processes },
        rw (returned, io_callback) refl,
        λ n.
            removed n
            ∙ ap (λ (o : Option Bool). if is_in n t.remfds then some false else o)
                (watch_all-fdhandlers t.addfds start n),
      )
      | inr (n, thrown, listed, unknown) ↦
          let before : with_added t.addfds v.fdhandlers n ≡ none =
            sym (watch_all-fdhandlers t.addfds start n) ∙ unknown in
          inr (n, rw (thrown, io_callback) refl, listed, ground arith, ground arith)
    ]

is_in-append : (n : ℕ) (xs ys : List ℕ) → is_in n ys ≡ true → is_in n (xs ++ ys) ≡ true
is_in-append n [] ys h = h
is_in-append n (x ∷ xs) ys h = ground (arith, is_in-append n xs ys)

is_in-append_left : (n : ℕ) (xs ys : List ℕ) → is_in n xs ≡ true → is_in n (xs ++ ys) ≡ true
is_in-append_left n [] ys h = cc
is_in-append_left n (x ∷ xs) ys h = ground (arith, is_in-append_left n xs ys)

output_fds-is_in :
    (ps qs : List PipeInfo) (p : PipeInfo) (n : ℕ)
    → p.fd ≡ some n
    → p.is_input ≡ false
    → is_in n (output_fds (ps ++ p ∷ qs)) ≡ true
unfolding output_fds
output_fds-is_in [] qs p n h k = ground arith
output_fds-is_in (x ∷ ps) qs p n h k = ground (arith, output_fds-is_in ps qs p n h k)

changed_fds-is_in :
    (start : Proc → Proc) (before behind : List Item) (it : Item) (n : ℕ)
    → is_idle it.proc ≡ true
    → is_in n (output_fds (start it.proc).pipes) ≡ true
    → is_in n (changed_fds start (before ++ it ∷ behind)) ≡ true
unfolding changed_fds
changed_fds-is_in start [] behind it n idle h =
    rw idle (is_in-append_left n (output_fds (start it.proc).pipes) (changed_fds start behind) h)
changed_fds-is_in start (x ∷ before) behind it n idle h =
    is_in-append n _ (changed_fds start (before ++ it ∷ behind))
      (changed_fds-is_in start before behind it n idle h)

-- After `cb_run_proc` the descriptor of each output pipe of each module that it started is watched,
-- whatever becomes of the other modules.
pub cb_run_proc-fdhandlers :
    (start : Proc → Proc) (v : View) (before behind : List Item) (it : Item) (ps qs : List PipeInfo)
    (p : PipeInfo) (n : ℕ)
    → v.processes ≡ before ++ it ∷ behind
    → is_idle it.proc ≡ true
    → (start it.proc).pipes ≡ ps ++ p ∷ qs
    → p.fd ≡ some n
    → p.is_input ≡ false
    → (cb_run_proc start v).fdhandlers n ≡ some true
unfolding cb_run_proc
cb_run_proc-fdhandlers start v before behind it ps qs p n items idle pipes fd output =
    let started : View = record v { processes = start_all start v.processes } in
    let fds = changed_fds start v.processes in
    let listed : is_in n fds ≡ true = rw items (
      changed_fds-is_in start before behind it n idle
        (rw pipes (output_fds-is_in ps qs p n fd output))) in
    watch_all-fdhandlers fds started n ∙ rw listed refl
