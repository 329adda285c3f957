-- ===== src/PpMode/Motion.antt =====
-- example/pp_mode_control.c: a position move with its
-- handshake over the control word and the status word, and the keyboard commands.
use e_rob_canopen_node_demo.Base.{
  ℕ, zero, suc, ◌-◌, bit_and, bit_or, Bool, true, false, not, Option, none, some, ltb, ◌==◌,
  if◌then◌else◌,
}
use e_rob_canopen_node_demo.PpMode.{M, pure, ◌>>=◌, ◌>>◌, write_sdo, read_sdo}

-- `target_position > MAX_POSITION`, `target_position < MIN_POSITION`
abbrev pub max_position : ℕ
max_position = 1048576

unfoldable pub is_out_of_range : ℕ → Bool
is_out_of_range target =
    if ltb target 0x80000000
    then ltb max_position target
    else ltb target (0x100000000 - max_position)

abbrev pub position_index : ℕ
position_index = 0x6064

abbrev pub target_index : ℕ
target_index = 0x607A

abbrev pub control_index : ℕ
control_index = 0x6040

abbrev pub status_index : ℕ
status_index = 0x6041

-- Whether bit 12 of a status word is as awaited.
abbrev pub is_as : Bool → Option ℕ → Bool
is_as want none = false
is_as true (some w) = not (bit_and w 0x1000 == 0)
is_as false (some w) = bit_and w 0x1000 == 0

-- The loops that wait for bit 12 of the status word, with the rounds that are left.
unfoldable pub wait_status : Bool → ℕ → M Bool
wait_status want zero = pure false
wait_status want (suc rounds) = do
  status ← read_sdo status_index
  elim (is_as want status) [ true ↦ pure true | false ↦ wait_status want rounds ]

unfoldable pub print_command_help : M (Option ℕ)
print_command_help = read_sdo position_index

-- Steps 6 and 7 of a move.
unfoldable pub finish : M Bool
finish = do wait_status false 50; read_sdo position_index; print_command_help; pure true

-- Step 5: bit 4 of the control word is cleared.
unfoldable pub release : ℕ → M Bool
release w = do
  done ← write_sdo control_index (bit_and w 0xFFFFFFEF)
  if done then finish else pure false

-- Steps 3 and 4: bit 4 of the control word is set, and the drive acknowledges.
unfoldable pub raise : ℕ → M Bool
raise w = do
  done ← write_sdo control_index (bit_or w 0x10)
  if done
      then (do heard ← wait_status true 50; if heard then release (bit_or w 0x10) else pure false)
      else pure false

-- Steps 1 and 2.
unfoldable pub place : ℕ → M Bool
place target = do
  done ← write_sdo target_index target
  if done
      then (do word ← read_sdo control_index; elim word [ none ↦ pure false | some w ↦ raise w ])
      else pure false

-- `execute_position_move`
unfoldable pub execute_position_move : ℕ → M Bool
execute_position_move target =
    if is_out_of_range target then pure false else (read_sdo position_index >> place target)
