-- ===== src/PpMode/Commands.antt =====
-- example/pp_mode_control.c: the start of the drive, the keyboard commands and `main`.
use e_rob_canopen_node_demo.Base.{
  ℕ, ◌+◌, ◌-◌, ◌*◌, List, [], ◌∷◌, ◌++◌, Bool, true, false, ◌&&◌, ◌||◌, Option, none, some, get_or,
  drop, length, ltb, leb, ◌==◌, if◌then◌else◌, u32,
}
use e_rob_canopen_node_demo.PpMode.{
  App, Frame, Link, lost, hears, sent, M, pure, ◌>>=◌, ◌>>◌, next_link, write_sdo, send_nmt_command,
}
use e_rob_canopen_node_demo.PpMode.Motion.{control_index, execute_position_move, print_command_help}

-- The three profile parameters.
pub data Param : Type 0 where
  velocity acceleration deceleration : Param

abbrev pub index_of : Param → ℕ
index_of velocity = 0x6081
index_of acceleration = 0x6083
index_of deceleration = 0x6084

abbrev pub get : Param → App → ℕ
get velocity s = s.current_profile_velocity
get acceleration s = s.current_profile_acceleration
get deceleration s = s.current_profile_deceleration

abbrev pub put : Param → ℕ → App → App
put velocity v s = record s { current_profile_velocity = v }
put acceleration v s = record s { current_profile_acceleration = v }
put deceleration v s = record s { current_profile_deceleration = v }

-- A parameter is set and written.
unfoldable pub store : Param → ℕ → M Bool
store p v s = write_sdo (index_of p) v (put p v s)

abbrev pub param_of : ℕ → Option Param
param_of c =
    if c == b'v'
    then some velocity
    else if c == b'a'
    then some acceleration
    else if c == b'd'
    then some deceleration
    else none

-- `sscanf` with `%d`: blanks, a sign, digits. The value is the bit pattern of an `int`, and 0 where
-- there is no number; numbers of more than 64 bits are not considered.
unfoldable pub scan_digits : ℕ → List ℕ → ℕ
scan_digits v [] = v
scan_digits v (c ∷ line) =
    let rest = scan_digits (v * 10 + (c - b'0')) line in
    if leb b'0' c && leb c b'9' then rest else v

unfoldable pub scan_signed : List ℕ → ℕ
unfolding scan_digits
scan_signed [] = 0
scan_signed (c ∷ line) =
    if c == b'-'
    then u32 (0x100000000 - u32 (scan_digits 0 line))
    else if c == b'+'
    then u32 (scan_digits 0 line)
    else u32 (scan_digits 0 (c ∷ line))

unfoldable pub scan_decimal : List ℕ → ℕ
unfolding scan_signed
scan_decimal [] = 0
scan_decimal (c ∷ line) =
    let rest = scan_decimal line in
    if (c == b' ') || (leb 9 c && leb c 13) then rest else scan_signed (c ∷ line)

abbrev is_positive : ℕ → Bool
is_positive v = ltb 0 v && ltb v 0x80000000

-- The commands `v`, `a` and `d`.
unfoldable pub set_param : Param → ℕ → M (Option ℕ)
set_param p v = if is_positive v then (store p v >> print_command_help) else print_command_help

-- The commands `+` and `-`.
unfoldable pub increase : Param → M Bool
increase p s = store p (u32 (get p s + 100)) s

unfoldable pub decrease : Param → M Bool
decrease p s = (if ltb 100 (get p s) then store p (get p s - 100) else pure false) s

-- The command `p`.
unfoldable pub move_to : ℕ → M Bool
move_to v s = execute_position_move v (record s { current_target_position = v })

unfoldable pub set_target : Bool → ℕ → M Bool
set_target has_value v = if has_value then move_to v else pure false

unfoldable pub stop : M (Option ℕ)
stop = write_sdo control_index 0x06 >> print_command_help

unfoldable pub quit : M Bool
quit s = (true, record s { running = false }, [])

abbrev pub nothing : M (Unit {0})
nothing = pure tt

abbrev pub ignore : {A : Type 0} → M A → M (Unit {0})
ignore m = m >> nothing

-- The commands `+` and `-` with the letter behind them.
abbrev pub adjust : (Param → M Bool) → List ℕ → M (Unit {0})
adjust change line = elim (if leb 2 (length line) then param_of (get_or line 1 0) else none) [
  | none ↦ nothing
  | some p ↦ ignore (change p)
]

-- The `switch` on a line that is not empty, which keyboard_input_thread has as well.
unfoldable pub command : List ℕ → M (Unit {0})
command line =
    let c = get_or line 0 0 in
    let has_value = ltb 2 (length line) in
    let v = if has_value then scan_decimal (drop 2 line) else 0 in
    if c == b'p'
    then ignore (set_target has_value v)
    else if c == b'v'
    then ignore (set_param velocity v)
    else if c == b'a'
    then ignore (set_param acceleration v)
    else if c == b'd'
    then ignore (set_param deceleration v)
    else if c == b'+'
    then adjust increase line
    else if c == b'-'
    then adjust decrease line
    else if c == b's'
    then ignore stop
    else if c == b'q'
    then ignore quit
    else nothing

-- The main loop on the lines that the user types; what comes after the last line is not modelled.
unfoldable pub session : List (List ℕ) → M (Unit {0})
session [] = nothing
session ([] ∷ lines) = session lines
session ((c ∷ line) ∷ lines) =
    λ s. (if s.running then (command (c ∷ line) >> session lines) else nothing) s

-- `motor_enabled`, which nothing reads.
unfoldable pub enable : M (Unit {0})
enable s = (tt, record s { motor_enabled = true }, [])

-- `init_pp_mode`
unfoldable pub init_pp_mode : M (Unit {0})
init_pp_mode = do
  send_nmt_command 0x02
  send_nmt_command 0x82
  send_nmt_command 0x01
  write_sdo 0x6060 0x01
  write_sdo 0x6081 5566
  write_sdo 0x6083 5566
  write_sdo 0x6084 5566
  write_sdo control_index 0x80
  write_sdo control_index 0x06
  write_sdo control_index 0x07
  write_sdo control_index 0x0F
  enable

abbrev is_up : Link → Bool
is_up lost = false
is_up (hears frames) = true

abbrev arrived : Link → List Frame
arrived lost = []
arrived (hears frames) = frames

-- `check_can_connection`: the start command to all nodes.
unfoldable pub check_can_connection : M Bool
check_can_connection s =
    let link = (next_link s.links).0 in
    (
      is_up link,
      record s { links = (next_link s.links).1; inbox = s.inbox ++ arrived link },
      sent (record { can_id = 0; bytes = 0x01 ∷ 0x00 ∷ [] }) ∷ [],
    )

-- `main` from the open socket on, in its parts; the result says whether the connection was there.
unfoldable pub work : List (List ℕ) → M Bool
work lines = do print_command_help; session lines; write_sdo control_index 0x06; pure true

unfoldable pub drive : List (List ℕ) → M Bool
drive lines = init_pp_mode >> work lines

unfoldable pub run : List (List ℕ) → M Bool
run lines = do connected ← check_can_connection; if connected then drive lines else pure false

-- The node of the first argument of the program, and of what the user enters: `int` patterns.
abbrev pub is_node : ℕ → Bool
is_node v = leb 1 v && leb v 127

unfoldable pub node_of_argument : ℕ → Option ℕ
node_of_argument v = if is_node v then some v else none

unfoldable pub node_of_input : Option ℕ → ℕ
node_of_input none = 2
node_of_input (some v) = if is_node v then v else 2
