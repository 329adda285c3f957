-- ===== src/Leds.antt =====
-- 303/CO_LEDs.c and 303/CO_LEDs.h: the CANopen indicators. `timer_next` is the result for the
-- operating system.
pub mod Ticks
pub mod Clock
pub mod Patterns
pub mod Runs
mod Tests
use e_rob_canopen_node_demo.Base.{
  ℕ, zero, suc, ◌+◌, ◌-◌, ◌*◌, ◌/◌, ◌%◌, bit_and, bit_or, Bool, true, false, not, ◌&&◌, ◌||◌,
  Option, none, some, ltb, leb, ◌==◌, if◌then◌else◌, u32, u8, min,
}
use e_rob_canopen_node_demo.Nmt.{State, initializing, pre_operational, operational, stopped}

-- CO_LED_flicker and the other masks
abbrev pub led_flicker : ℕ
led_flicker = 0x01

abbrev pub led_blink : ℕ
led_blink = 0x02

abbrev pub led_flash_1 : ℕ
led_flash_1 = 0x04

abbrev pub led_flash_2 : ℕ
led_flash_2 = 0x08

abbrev pub led_flash_3 : ℕ
led_flash_3 = 0x10

abbrev pub led_flash_4 : ℕ
led_flash_4 = 0x20

abbrev pub led_can_open : ℕ
led_can_open = 0x80

-- `CO_LEDs_t`
pub record Leds : Type 0 where
  pub timer_50ms : ℕ
  pub timer_200ms : ℕ
  pub timer_flash_1 : ℕ
  pub timer_flash_2 : ℕ
  pub timer_flash_3 : ℕ
  pub timer_flash_4 : ℕ
  pub red : ℕ
  pub green : ℕ

-- `CO_LEDs_init`
abbrev pub init : Leds
init = record {
  timer_50ms = 0;
  timer_200ms = 0;
  timer_flash_1 = 0;
  timer_flash_2 = 0;
  timer_flash_3 = 0;
  timer_flash_4 = 0;
  red = 0;
  green = 0;
}

-- The state of the node that `CO_LEDs_process` is called with.
pub record Inputs : Type 0 where
  pub nmt_state : State
  pub lss_config : Bool
  pub err_can_bus_off : Bool
  pub err_can_bus_warn : Bool
  pub err_rpdo : Bool
  pub err_sync : Bool
  pub err_hb_cons : Bool
  pub err_other : Bool
  pub firmware_download : Bool

-- CO_LED_RED and CO_LED_GREEN
abbrev pub led_red : Leds → ℕ → Bool
led_red s mask = not (bit_and s.red mask == 0)

abbrev pub led_green : Leds → ℕ → Bool
led_green s mask = not (bit_and s.green mask == 0)

-- One of the four `switch` statements, for the LED that flashes `count` times: the timer that has been
-- counted up, and the bits that are set for red and for green.
unfoldable pub flash : ℕ → ℕ → ℕ → ℕ × ℕ × ℕ
flash count mask timer = (
  (if timer == 2 * count + 4 then 0 else timer),
  (if (timer % 2 == 1) && ltb timer (2 * count) then mask else 0),
  (if (timer % 2 == 0) && ltb 0 timer && leb timer (2 * count) then mask else 0),
)

-- The round of 200 ms: 2.5 Hz blinking and flashing.
unfoldable pub blink : Leds → Leds × ℕ × ℕ
blink s =
    let f1 = flash 1 led_flash_1 (u8 (s.timer_flash_1 + 1)) in
    let f2 = flash 2 led_flash_2 (u8 (s.timer_flash_2 + 1)) in
    let f3 = flash 3 led_flash_3 (u8 (s.timer_flash_3 + 1)) in
    let f4 = flash 4 led_flash_4 (u8 (s.timer_flash_4 + 1)) in
    let on = bit_and s.red led_blink == 0 in
    (
      record s {
        timer_200ms = 0;
        timer_flash_1 = f1.0;
        timer_flash_2 = f2.0;
        timer_flash_3 = f3.0;
        timer_flash_4 = f4.0;
      },
      bit_or (bit_or (bit_or (bit_or (if on then led_blink else 0) f1.1) f2.1) f3.1) f4.1,
      bit_or (bit_or (bit_or (bit_or (if on then 0 else led_blink) f1.2) f2.2) f3.2) f4.2,
    )

-- One round of the loop: the bits of the two LEDs, without those for CANopen.
unfoldable pub round : Leds → Leds × ℕ × ℕ
round s =
    let next = u8 (s.timer_200ms + 1) in
    let t = record s { timer_50ms = s.timer_50ms - 50000; timer_200ms = next } in
    let r = if ltb 3 next then blink t else (t, bit_and s.red 0x7E, bit_and s.green 0x7E) in
    if bit_and s.red led_flicker == 0
    then (r.0, bit_or r.1 led_flicker, r.2)
    else (r.0, r.1, bit_or r.2 led_flicker)

-- The loop, with fuel for its rounds, and the bits of the last of them.
unfoldable pub loop : ℕ → Leds → Option (ℕ × ℕ) → Leds × Option (ℕ × ℕ)
loop zero s bits = (s, bits)
loop (suc fuel) s bits =
    let r = round s in
    let rest = loop fuel r.0 (some (r.1, r.2)) in if leb 50000 s.timer_50ms then rest else (s, bits)

-- The red LED for CANopen: the errors.
unfoldable pub red_can_open : Inputs → ℕ → ℕ
red_can_open i rd = if i.err_can_bus_off then 1 else elim i.nmt_state [
  | initializing ↦ bit_and rd led_flicker
  | _ ↦
      if i.err_rpdo
      then bit_and rd led_flash_4
      else if i.err_sync
      then bit_and rd led_flash_3
      else if i.err_hb_cons
      then bit_and rd led_flash_2
      else if i.err_can_bus_warn
      then bit_and rd led_flash_1
      else if i.err_other
      then bit_and rd led_blink
      else 0
]

-- The green LED for CANopen: the state of the node.
unfoldable pub green_can_open : Inputs → ℕ → ℕ
green_can_open i gr =
    if i.lss_config
    then bit_and gr led_flicker
    else if i.firmware_download
    then bit_and gr led_flash_3
    else elim i.nmt_state [
      | stopped ↦ bit_and gr led_flash_1
      | pre_operational ↦ bit_and gr led_blink
      | operational ↦ 1
      | initializing ↦ 0
    ]

abbrev pub with_can_open : ℕ → ℕ → ℕ
with_can_open co bits = if co == 0 then bits else bit_or bits led_can_open

-- What follows the loop.
unfoldable pub show : Inputs → Leds × Option (ℕ × ℕ) → Leds
show i (s, none) = s
show i (s, some (rd, gr)) = record s {
  red = with_can_open (red_can_open i rd) rd;
  green = with_can_open (green_can_open i gr) gr;
}

-- `CO_LEDs_process`, `dt` microseconds after the last call
unfoldable pub process : Leds → ℕ → Inputs → Leds
process s dt i =
    let timer = u32 (s.timer_50ms + dt) in
    show i (loop (timer / 50000) (record s { timer_50ms = timer }) none)

-- `*timerNext_us` after the call that leaves the object.
abbrev pub timer_next : Leds → ℕ → ℕ
timer_next s next = min next (50000 - s.timer_50ms)
