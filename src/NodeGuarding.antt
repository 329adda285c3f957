-- ===== src/NodeGuarding.antt =====
-- 301/CO_Node_Guarding.c and 301/CO_Node_Guarding.h: the slave that answers the master's requests, and
-- the master. What an object reports to the emergency object, the bit CO_EM_HEARTBEAT_CONSUMER in all
-- cases, is an event, since that object is shared with the heartbeat consumer.
pub mod Slave
pub mod Master
pub mod Polling
pub mod Guarding
mod Tests
use e_rob_canopen_node_demo.Base.{ℕ}

-- CO_CAN_ID_HEARTBEAT
abbrev pub can_id_heartbeat : ℕ
can_id_heartbeat = 0x700

pub data Event : Type 0 where
  -- A message with the byte, and a request to the identifier.
  answered : ℕ → Event
  requested : ℕ → Event
  -- CO_errorReport and CO_errorReset, with the information.
  reported : ℕ → Event
  cleared : ℕ → Event
