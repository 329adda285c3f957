-- ===== src/Time/Tests.antt =====
-- Runs of the TIME object, and its theorem at a concrete clock.
use e_rob_canopen_node_demo.Base.{ℕ, ◌+◌, ◌≡◌, refl, List, [], ◌∷◌, Bool, true, false, arith}
use e_rob_canopen_node_demo.Time.{Time, time_sent, receive, take_stamp, advance, produce, process}
use e_rob_canopen_node_demo.Time.Clock.{
  IsValid, short_end, short_tick, elapse, sum, total, total-elapse,
}

-- One millisecond and a half before midnight.
abbrev evening : Time
evening = record {
  time_stamp = 0 ∷ 0 ∷ 0 ∷ 0 ∷ 0 ∷ 0 ∷ [];
  ms = 86399998;
  days = 15000;
  residual_us = 500;
  is_consumer = true;
  is_producer = true;
  can_rx_new = false;
  producer_interval_ms = 1000;
  producer_timer_ms = 1000;
  has_signal_pre = false;
}

abbrev late_ticks : List (Bool × ℕ)
late_ticks = (true, 900) ∷ (true, 700) ∷ (false, 2000) ∷ []

total-elapse_example :
    IsValid (elapse late_ticks evening)
    × (total (elapse late_ticks evening) ≡ total evening + sum late_ticks)
total-elapse_example =
    total-elapse late_ticks evening (record { in_day = omega arith; in_ms = omega arith }) refl
      (omega arith)
      (short_tick (omega arith) (short_tick (omega arith) (short_tick (omega arith) short_end)))

next_day : (elapse late_ticks evening).days ≡ 15001
unfolding elapse process advance produce take_stamp
next_day = refl

-- The producer's message, and the consumer that receives it.
sends : (process evening true 0).2 ≡ time_sent (0xFE ∷ 0x5B ∷ 0x26 ∷ 0x05 ∷ 0x98 ∷ 0x3A ∷ []) ∷ []
unfolding process advance produce take_stamp
sends = refl

takes :
    (process (receive evening (0xFE ∷ 0x5B ∷ 0x26 ∷ 0x05 ∷ 0x98 ∷ 0x3A ∷ []) 6).0 true 900).0.ms
    ≡ 86399998
unfolding receive process advance produce take_stamp
takes = refl
