-- ===== src/ExtProcess/Setup/Found.antt =====
-- The executable that `determine_path_` finds, and the pipes that `setup_pipes` gives a Unix program.
use modglue.Common.{◌⊎◌, ◌≡◌, ◌≢◌, Bool, true, false, List, [], ◌∷◌, equal_iff, arith, ok, length}
use modglue.Pipe.{Pipe, new_pipe, set_unix_style}
use modglue.ExtProcess.Setup.{
  Host, setup_pipes, unix_pipes, find_path, determine_path, scan_binary, contains, is_nil,
  set_first,
}
use modglue.ExtProcess.{ExtProcess}

-- The executable that is found is not the empty text; and if the name holds a slash, it is the name
-- itself, and `stat` finds that file.
pub determine_path_found :
    (host : Host) (p : ExtProcess) {q : ExtProcess}
    → determine_path host p ≡ ok q
    → (q.full_path ≢ [])
      × ((contains (b'/' ∷ []) p.name ≡ false)
          ⊎ ((q.full_path ≡ p.name) × (host.stat p.name ≡ true)))
unfolding determine_path find_path
determine_path_found host p h = ground (arith, equal_iff (find_path host p.name) [])

abbrev pub AllUnix : Bool → List Pipe → Type 0
AllUnix b [] = Unit {0}
AllUnix b (p ∷ ps) = (p.unix_style_pipe ≡ b) × AllUnix b ps

-- A new process whose program is no modglue binary gets the two input pipes and the two output pipes
-- of a Unix program. The input pipes are marked as Unix pipes, and the output pipes are not: the loop
-- over the output pipes marks the input pipes again.
pub setup_pipes_unix :
    (host : Host) (p : ExtProcess) {q : ExtProcess}
    → (p.input_pipes ≡ []) × (p.output_pipes ≡ [])
    → scan_binary 0 (host.file (find_path host p.name)) ≡ false
    → setup_pipes host p ≡ ok q
    → AllUnix true q.input_pipes
      × AllUnix false q.output_pipes
      × (length q.input_pipes ≡ 2)
      × (length q.output_pipes ≡ 2)
unfolding setup_pipes is_nil unix_pipes set_first new_pipe set_unix_style
setup_pipes_unix host p fresh plain h = ground arith
