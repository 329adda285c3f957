-- ===== src/Od.antt =====
-- 301/CO_ODinterface.c and 301/CO_ODinterface.h: the search of the Object Dictionary, access to a
-- sub-object, and the default read and write functions.
-- Memory is a list of bytes, a pointer is an address in it or `none` for NULL; entries of the
-- dictionary are named by their place in `list`. Object pointers handed in are not NULL.
pub mod Entries
pub mod Find
pub mod Splices
pub mod Transfer
pub mod Elements
mod Tests
use e_rob_canopen_node_demo.Base.{
  ℕ, zero, suc, ◌+◌, ◌-◌, ◌*◌, ◌/◌, List, [], ◌∷◌, ◌++◌, Bool, true, false, not, ◌&&◌, ◌||◌, Option,
  none, some, get_or, get_elem?, take, drop, length, ltb, leb, ◌==◌, if◌then◌else◌, u8,
}

-- `ODR_t`
pub data Odr : Type 0 where
  partial ok out_of_mem unsupp_access writeonly readonly idx_not_exist no_map map_len : Odr
  par_incompat dev_incompat hw type_mismatch data_long data_short sub_not_exist : Odr
  invalid_value value_high value_low max_less_min no_resource general data_transf : Odr
  data_loc_ctrl data_dev_state od_missing no_data : Odr

-- The table of `OD_getSDOabCode`; a code outside it, here `partial`, counts as ODR_DEV_INCOMPAT.
unfoldable pub get_sdo_ab_code : Odr → ℕ
get_sdo_ab_code Odr.partial = 0x06040047
get_sdo_ab_code Odr.ok = 0x00000000
get_sdo_ab_code Odr.out_of_mem = 0x05040005
get_sdo_ab_code Odr.unsupp_access = 0x06010000
get_sdo_ab_code Odr.writeonly = 0x06010001
get_sdo_ab_code Odr.readonly = 0x06010002
get_sdo_ab_code Odr.idx_not_exist = 0x06020000
get_sdo_ab_code Odr.no_map = 0x06040041
get_sdo_ab_code Odr.map_len = 0x06040042
get_sdo_ab_code Odr.par_incompat = 0x06040043
get_sdo_ab_code Odr.dev_incompat = 0x06040047
get_sdo_ab_code Odr.hw = 0x06060000
get_sdo_ab_code Odr.type_mismatch = 0x06070010
get_sdo_ab_code Odr.data_long = 0x06070012
get_sdo_ab_code Odr.data_short = 0x06070013
get_sdo_ab_code Odr.sub_not_exist = 0x06090011
get_sdo_ab_code Odr.invalid_value = 0x06090030
get_sdo_ab_code Odr.value_high = 0x06090031
get_sdo_ab_code Odr.value_low = 0x06090032
get_sdo_ab_code Odr.max_less_min = 0x06090036
get_sdo_ab_code Odr.no_resource = 0x060a0023
get_sdo_ab_code Odr.general = 0x08000000
get_sdo_ab_code Odr.data_transf = 0x08000020
get_sdo_ab_code Odr.data_loc_ctrl = 0x08000021
get_sdo_ab_code Odr.data_dev_state = 0x08000022
get_sdo_ab_code Odr.od_missing = 0x08000023
get_sdo_ab_code Odr.no_data = 0x08000024

-- `OD_stream_t`; `object` stays with the extension.
pub record Stream : Type 0 where
  pub data_orig : Option ℕ
  pub data_length : ℕ
  pub data_offset : ℕ
  pub attribute : ℕ
  pub index : ℕ
  pub sub_index : ℕ

abbrev pub Memory : Type 0
Memory = List ℕ

-- The `n` bytes at an address.
abbrev pub slice : Memory → ℕ → ℕ → List ℕ
slice mem addr n = take n (drop addr mem)

-- `memcpy(addr, bytes, length bytes)`
abbrev pub splice : Memory → ℕ → List ℕ → Memory
splice mem addr bytes = take addr mem ++ (bytes ++ drop (addr + length bytes) mem)

-- What a transfer function returns besides the stream: `countRead` is the length of `bytes`.
pub record ReadOut : Type 0 where
  pub code : Odr
  pub bytes : List ℕ
  pub stream : Stream

unfoldable pub read_original : Memory → Stream → ℕ → ReadOut
read_original mem s count = elim s.data_orig [
  | none ↦ record { code = Odr.sub_not_exist; bytes = []; stream = s }
  | some orig ↦
      let left = s.data_length - s.data_offset in
      if not (ltb 0 s.data_offset || ltb count s.data_length)
      then record { code = Odr.ok; bytes = slice mem orig s.data_length; stream = s }
      else if leb s.data_length s.data_offset
      then record { code = Odr.dev_incompat; bytes = []; stream = s }
      else if ltb count left
      then record {
        code = Odr.partial;
        bytes = slice mem (orig + s.data_offset) count;
        stream = record s { data_offset = s.data_offset + count };
      }
      else record {
        code = Odr.ok;
        bytes = slice mem (orig + s.data_offset) left;
        stream = record s { data_offset = 0 };
      }
]

pub record WriteOut : Type 0 where
  pub code : Odr
  pub count_written : ℕ
  pub memory : Memory
  pub stream : Stream

-- `buf[0..count)` is the list. The last check before `memcpy` always holds.
unfoldable pub write_original : Memory → Stream → List ℕ → WriteOut
write_original mem s buf = elim s.data_orig [
  | none ↦ record { code = Odr.sub_not_exist; count_written = 0; memory = mem; stream = s }
  | some orig ↦
      let count = length buf in
      let left = s.data_length - s.data_offset in
      let finished = record s { data_offset = 0 } in
      if not (ltb 0 s.data_offset || ltb count s.data_length)
      then if ltb s.data_length count
        then record { code = Odr.data_long; count_written = 0; memory = mem; stream = s }
        else record {
          code = Odr.ok;
          count_written = s.data_length;
          memory = splice mem orig buf;
          stream = s;
        }
      else if leb s.data_length s.data_offset
      then record { code = Odr.dev_incompat; count_written = 0; memory = mem; stream = s }
      else if ltb count left
      then record {
        code = Odr.partial;
        count_written = count;
        memory = splice mem (orig + s.data_offset) buf;
        stream = record s { data_offset = s.data_offset + count };
      }
      else if ltb left count
      then record { code = Odr.data_long; count_written = 0; memory = mem; stream = finished }
      else record {
        code = Odr.ok;
        count_written = left;
        memory = splice mem (orig + s.data_offset) buf;
        stream = finished;
      }
]
