-- ===== src/PpMode/Agreement.antt =====
-- The profile parameters of the program, and what it has written of them to the drive.
use e_rob_canopen_node_demo.Base.{◌≡◌, List, true, false, none, some}
use e_rob_canopen_node_demo.PpMode.{App, Event, M}
use e_rob_canopen_node_demo.PpMode.Commands.{Param, index_of, get}
use e_rob_canopen_node_demo.PpMode.Parameters.{last_write, drive_value, last_confirmed, Keeps}

abbrev Always : App → Type 0
Always s = Unit {0}

module _ (p : Param) where
  abbrev Agrees : {A : Type 0} → M A → Type 0
  Agrees m = Keeps p Always m

-- A drive that has just been started, with the values of the program's variables.
abbrev Starts : Param → App → Type 0
Starts p s = get p s ≡ 5566

-- The variable of a parameter after some calls: it holds the value that was written last, and the
-- drive has that value where it has confirmed that write.
pub record Agreed (p : Param) (events : List Event) (s : App) : Type 0 where
  pub is_written : last_write (index_of p) none events ≡ some (get p s)
  pub is_in_drive :
      last_confirmed (index_of p) false events ≡ true
      → drive_value (index_of p) none events ≡ some (get p s)
