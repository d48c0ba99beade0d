-- ===== src/PtyWrap/Streams.antt =====
-- The standard streams of the program that src/ptywrap.cc wraps.
use modglue.Common.{ℕ, ◌≡◌, sym, true, List, [], ◌∷◌, some, Bytes, ok, arith, >>=-eq-ok}
use modglue.System.{Call}
use modglue.System.Table.{Table, run_calls, AreFresh, AreClosed, AreFiles}
use modglue.ExtProcess.Fork.{child}
use modglue.PtyWrap.Start.{
  Ptys, Modes, started, open_pty_slave, child_calls, child_part, start_child,
}

-- The three pairs, the master first.
module _ (m0 s0 m1 s1 m2 s2 : ℕ) where
  abbrev pub ptys : Ptys
  ptys = record { p_stdin = (m0, s0); p_stdout = (m1, s1); p_stderr = (m2, s2) }

  child_table :
      (program : Bytes) (args : List Bytes) (signalling : ℕ) (t : Table) (files : ℕ × ℕ × ℕ)
      → AreFresh (m0 ∷ s0 ∷ m1 ∷ s1 ∷ m2 ∷ s2 ∷ [])
      → AreFiles t (s0, s1, s2) files
      → let t' = run_calls (child_calls program args ptys signalling) t in
        AreFiles t' (0, 1, 2) files × AreClosed t' (m0 ∷ s0 ∷ m1 ∷ s1 ∷ m2 ∷ s2 ∷ [])
  unfolding child_calls run_calls
  child_table program args signalling t files fresh open_files = ground arith

  child_part_calls :
      (program : Bytes) (args : List Bytes) (modes : Modes) (signalling : ℕ) {calls : List Call}
      → child_part program args ptys modes signalling ≡ ok calls
      → calls ≡ child_calls program args ptys signalling
  unfolding child_part
  child_part_calls program args (on_in, on_out, on_err) signalling {calls} h =
      let (_, first, h') = >>=-eq-ok (open_pty_slave on_in true) _ h in
      let (_, second, h'') = >>=-eq-ok (open_pty_slave on_out true) _ h' in
      let (_, third, e) = >>=-eq-ok (open_pty_slave on_err true) _ h'' in
      let made : child_calls program args ptys signalling ≡ calls = cc in sym made

  -- The wrapped program's standard input, output and error are the files behind the slaves
  -- of the three pseudo-terminals, and before `execvp` none of the six descriptors that `openpty` gave is open in
  -- it. This holds where the part before the loop starts a child that throws nothing, the
  -- slaves are open in the table at first, and no such descriptor is a standard stream or another of
  -- them.
  pub start_child-run_calls :
      (program : Bytes) (args : List Bytes) (modes : Modes) (reading writing pid : ℕ) (t : Table)
      (files : ℕ × ℕ × ℕ) {calls in_parent : List Call}
      → AreFresh (m0 ∷ s0 ∷ m1 ∷ s1 ∷ m2 ∷ s2 ∷ [])
      → AreFiles t (s0, s1, s2) files
      → start_child (program ∷ args) ptys modes (some (reading, writing)) true (child pid)
        ≡ ok (started pid (ok calls) in_parent)
      → let t' = run_calls calls t in
        AreFiles t' (0, 1, 2) files × AreClosed t' (m0 ∷ s0 ∷ m1 ∷ s1 ∷ m2 ∷ s2 ∷ [])
  unfolding start_child
  start_child-run_calls program args modes reading writing pid t files {calls} fresh open_files h =
      let ran : child_part program args ptys modes writing ≡ ok calls = cc in
      rw (child_part_calls program args modes writing ran)
        (child_table program args writing t files fresh open_files)
