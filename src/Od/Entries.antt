-- ===== src/Od/Entries.antt =====
-- The entries of the Object Dictionary: OD_find and OD_getSub of 301/CO_ODinterface.c. An entry is
-- named by its place in `od->list`; `odObjectType` selects the constructor of the object.
use e_rob_canopen_node_demo.Base.{
  ℕ, zero, suc, ◌+◌, ◌-◌, ◌*◌, ◌/◌, List, [], ◌∷◌, Bool, true, false, ◌&&◌, Option, none, some,
  get_or, take, length, ltb, leb, ◌==◌, if◌then◌else◌, u8,
}
use e_rob_canopen_node_demo.Od.{Odr, Stream}

-- `OD_obj_var_t`, `OD_obj_array_t`, `OD_obj_record_t`
pub record ObjVar : Type 0 where
  pub data_orig : Option ℕ
  pub attribute : ℕ
  pub data_length : ℕ

pub record ObjArray : Type 0 where
  pub data_orig0 : Option ℕ
  pub data_orig : Option ℕ
  pub attribute0 : ℕ
  pub attribute : ℕ
  pub data_element_length : ℕ
  pub data_element_sizeof : ℕ

pub record ObjRecord : Type 0 where
  pub data_orig : Option ℕ
  pub sub_index : ℕ
  pub attribute : ℕ
  pub data_length : ℕ

-- `odObject` read at the type that `odObjectType & ODT_TYPE_MASK` names.
pub data Object : Type 0 where
  var : ObjVar → Object
  arr : ObjArray → Object
  rec : List ObjRecord → Object
  unknown : Object

-- `OD_extension_t`: whether its functions are set, and the object that they work on.
pub record Extension : Type 0 where
  pub object : ℕ
  pub has_read : Bool
  pub has_write : Bool

pub record Entry : Type 0 where
  pub index : ℕ
  pub sub_entries_count : ℕ
  pub od_object : Option Object
  pub extension : Option Extension

-- The function that `io->read` or `io->write` points to.
pub data Access : Type 0 where
  original disabled : Access
  custom : ℕ → Access

pub record Io : Type 0 where
  pub stream : Stream
  pub read : Access
  pub write : Access

-- The loop of `OD_find` between `min` and `max`, on fuel; the indexes are those of `od->list`.
unfoldable pub find_loop : ℕ → List ℕ → ℕ → ℕ → ℕ → Option (Option ℕ)
find_loop zero list index min max = none
find_loop (suc fuel) list index min max =
    let cur = (min + max) / 2 in
    let entry = get_or list cur 0 in
    let below = find_loop fuel list index min (if ltb 0 cur then cur - 1 else cur) in
    let above = find_loop fuel list index (cur + 1) max in
    if ltb min max
    then if index == entry then some (some cur) else if ltb index entry then below else above
    else some (if min == max && index == get_or list min 0 then some min else none)

-- `OD_find`; the list holds the indexes of the `od->size` entries.
unfoldable pub find : List ℕ → ℕ → Option (Option ℕ)
unfolding find_loop
find list index =
    if length list == 0
    then some none
    else find_loop (length list + 1) list index 0 (length list - 1)

-- The loop over the elements of a record.
unfoldable pub find_sub : List ObjRecord → ℕ → Option ObjRecord
find_sub [] sub = none
find_sub (o ∷ objs) sub = if o.sub_index == sub then some o else find_sub objs sub

-- The `switch` of `OD_getSub`: attribute, address and length, or the error.
pub data SubResult : Type 0 where
  found : Option ℕ → ℕ → ℕ → SubResult
  failed : Odr → SubResult

unfoldable pub get_sub_object : Object → ℕ → ℕ → SubResult
unfolding find_sub
get_sub_object (Object.var o) entries sub =
    if ltb 0 sub then failed Odr.sub_not_exist else found o.data_orig o.data_length o.attribute
get_sub_object (Object.arr o) entries sub =
    if leb entries sub
    then failed Odr.sub_not_exist
    else if sub == 0
    then found o.data_orig0 1 o.attribute0
    else found
        (elim o.data_orig [
          | none ↦ none
          | some ptr ↦ some (ptr + o.data_element_sizeof * u8 (sub - 1))
        ])
        o.data_element_length o.attribute
get_sub_object (Object.rec objs) entries sub = elim (find_sub (take entries objs) sub) [
  | none ↦ failed Odr.sub_not_exist
  | some o ↦ found o.data_orig o.data_length o.attribute
]
get_sub_object Object.unknown entries sub = failed Odr.dev_incompat

abbrev access : Bool → ℕ → Access
access true object = Access.custom object
access false object = Access.disabled

-- `OD_getSub`: the io of the sub-object, or the error.
unfoldable pub get_sub : Entry → ℕ → Bool → Odr × Option Io
unfolding get_sub_object
get_sub entry sub od_orig = elim entry.od_object [
  | none ↦ (Odr.idx_not_exist, none)
  | some obj ↦ elim (get_sub_object obj entry.sub_entries_count sub) [
    | failed code ↦ (code, none)
    | found orig len attr ↦
        let s : Stream = record {
          data_orig = orig;
          data_length = len;
          data_offset = 0;
          attribute = attr;
          index = entry.index;
          sub_index = sub;
        } in
        let plain : Io = record { stream = s; read = Access.original; write = Access.original } in
        elim entry.extension [
          | none ↦ (Odr.ok, some plain)
          | some e ↦ (
            Odr.ok,
            some (
                if od_orig then plain else record {
                  stream = s;
                  read = access e.has_read e.object;
                  write = access e.has_write e.object;
                }),
          )
        ]
  ]
]
