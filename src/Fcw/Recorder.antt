-- ===== src/Fcw/Recorder.antt =====
-- What a recorder may do to the airplane, and what holds of a call that returns.
use bare_metal_architect.Prelude.{
  ◌+◌, ◌≡◌, refl, inl, inr, Bool, true, ◌||◌, not, List, ltb, if◌then◌else◌, Bool-cases, length,
  done,
}
use bare_metal_architect.Text.{Text}
use bare_metal_architect.Chains.{append_tail}
use bare_metal_architect.Fcw.{Airplane, Command, CmdState, Rec, record_command, max_cmd_size}

-- A recorder returns, and changes the black box only.
pub record IsRecorder (rec : Rec) : Type 0 where
  pub box : Airplane → Text → CmdState → List Command
  pub keeps :
      (a : Airplane) (cmd : Text) (s : CmdState)
      → rec a cmd s ≡ done (record a { black_box = box a cmd s })

-- The black box after `record_command`.
pub recorded_box : Bool → Airplane → Text → CmdState → List Command
recorded_box node a cmd s =
    if not node || ltb max_cmd_size (length cmd + 1)
    then a.black_box
    else append_tail a.black_box (record { name = cmd; state = s })

-- With memory for the name, `record_command` is a recorder, whether it gets a node or not.
pub record_command-IsRecorder : (node : Bool) → IsRecorder (record_command node true)
unfolding record_command recorded_box
record_command-IsRecorder node = record {
  box = recorded_box node;
  keeps = λ a cmd s. elim (Bool-cases (not node || ltb max_cmd_size (length cmd + 1))) [
    | inl dropped ↦ rw dropped refl
    | inr kept ↦ rw kept refl
  ];
}
