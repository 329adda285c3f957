-- ===== src/Crc/Tests.antt =====
use e_rob_canopen_node_demo.Base.{◌≡◌, ◌≢◌, refl, ◌∷◌, [], arith}
use e_rob_canopen_node_demo.Crc.{crc16_ccitt, crc16_ccitt_table}
use e_rob_canopen_node_demo.Crc.Bitwise.{serial_crc, crc16_ccitt-eq-serial_crc}
use e_rob_canopen_node_demo.Crc.Detect.{crc16_ccitt_detects}

-- The check value of CRC-16/XMODEM for "123456789".
check_value :
    crc16_ccitt (0x31 ∷ 0x32 ∷ 0x33 ∷ 0x34 ∷ 0x35 ∷ 0x36 ∷ 0x37 ∷ 0x38 ∷ 0x39 ∷ []) 0 ≡ 0x31c3
unfolding crc16_ccitt crc16_ccitt_table
check_value = refl

crc16_ccitt-eq-serial_crc_example :
    crc16_ccitt (0x31 ∷ 0x32 ∷ []) 0xFFFF ≡ serial_crc (0x31 ∷ 0x32 ∷ []) 0xFFFF
crc16_ccitt-eq-serial_crc_example =
    crc16_ccitt-eq-serial_crc (0x31 ∷ 0x32 ∷ []) 0xFFFF (omega arith, (omega arith, tt))
      (omega arith)

crc16_ccitt_detects_example : crc16_ccitt (1 ∷ 2 ∷ 3 ∷ []) 0 ≢ crc16_ccitt (1 ∷ 7 ∷ 3 ∷ []) 0
crc16_ccitt_detects_example =
    crc16_ccitt_detects (1 ∷ []) (3 ∷ []) 2 7 0 (omega arith, tt) (omega arith, tt) (omega arith)
      (omega arith) (omega arith) (λ e. absurd (omega (arith, e)))
