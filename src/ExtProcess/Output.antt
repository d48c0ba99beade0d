-- ===== src/ExtProcess/Output.antt =====
-- `receive_output_` and the destructor of `ext_process` of src/ext_process.cc.
use modglue.Common.{
  ℕ, List, [], ◌∷◌, ◌++◌, Option, none, some, Bytes, if◌then◌else◌, ltb, length, set, get_or,
}
use modglue.System.{Call}
use modglue.Pipe.{destroy}
use modglue.ExtProcess.{ExtProcess, each_pipe}

-- `receive_output_`, on the index that the pipe has among `input_pipes_`, the lines that `getline`
-- delivers, and `output_`; `none` where the code goes out of the bounds of `output_`.
unfoldable pub receive_output : Option ℕ → List Bytes → List Bytes → Option (List Bytes)
receive_output none lines outputs = some outputs
receive_output (some i) [] outputs = some outputs
receive_output (some i) (line ∷ lines) outputs =
    let more = receive_output (some i) lines (set outputs i (get_or outputs i [] ++ line)) in
    if ltb i (length outputs) then more else none

-- The destructor deletes the pipes, the input pipes first.
unfoldable pub destroy_process : ExtProcess → List Call
unfolding each_pipe
destroy_process p = (each_pipe destroy p.input_pipes).1 ++ (each_pipe destroy p.output_pipes).1
