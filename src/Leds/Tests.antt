-- ===== src/Leds/Tests.antt =====
-- Runs of the indicators.
use e_rob_canopen_node_demo.Base.{◌≡◌, refl, true, false, arith}
use e_rob_canopen_node_demo.Nmt.{pre_operational}
use e_rob_canopen_node_demo.Leds.{
  Leds, Inputs, init, process, loop, round, blink, flash, show, red_can_open, green_can_open,
  led_red, led_green, led_can_open,
}
use e_rob_canopen_node_demo.Leds.Ticks.{timer-process}
use e_rob_canopen_node_demo.Leds.Runs.{Ran, started, waits, ticks, Ran-shows}

-- A pre-operational node that has lost a heartbeat.
abbrev lost_heartbeat : Inputs
lost_heartbeat = record {
  nmt_state = pre_operational;
  lss_config = false;
  err_can_bus_off = false;
  err_can_bus_warn = true;
  err_rpdo = false;
  err_sync = false;
  err_hb_cons = true;
  err_other = false;
  firmware_download = false;
}

abbrev call : Leds → Leds
call s = process s 49000 lost_heartbeat

-- After five calls the time is 245 ms, in the first flash.
abbrev five : Leds
five = call (call (call (call (call init))))

flashes : (led_red five led_can_open ≡ true) × (led_green five led_can_open ≡ false)
unfolding process loop round blink flash show red_can_open green_can_open
flashes = (refl, refl)

five-Ran : Ran 4 lost_heartbeat five
unfolding process loop round blink flash show red_can_open green_can_open
five-Ran =
    ticks 49000 lost_heartbeat
      (ticks 49000 lost_heartbeat
        (ticks 49000 lost_heartbeat
          (ticks 49000 lost_heartbeat
            (waits 49000 lost_heartbeat (started lost_heartbeat) (omega arith)) (omega arith)
            (omega arith))
          (omega arith) (omega arith))
        (omega arith) (omega arith))
      (omega arith) (omega arith)

Ran-shows_example : (led_red five led_can_open ≡ true) × (led_green five led_can_open ≡ false)
Ran-shows_example = Ran-shows five-Ran (omega arith)

timer-process_example : (process init 170000 lost_heartbeat).timer_50ms ≡ 20000
timer-process_example = timer-process init 170000 lost_heartbeat
