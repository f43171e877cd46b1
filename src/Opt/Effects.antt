-- ===== src/Opt/Effects.antt =====
-- docs/language.md: what an instruction of crates/slopic-core/src/mir.rs does besides writing its
-- local, apart from what the optimiser takes it to do.
use slopium.Base.{◌≡◌, Bool, true, false}
use slopium.Mir.{
  Instruction, const_int, const_float, const_bool, string_new, assign, address_of, binary, call,
  fn_addr, call_value, drop, struct_new, field_load, load, field_addr, enum_new, enum_tag,
  enum_field_load, enum_field_addr, field_store, enum_field_store, free, volatile_load,
  volatile_store,
}

-- An operation may trap, a call may do anything, a drop or a free ends the life of a value, a store
-- changes memory, and a volatile access is seen by a device. An allocation that nothing uses is seen
-- by nobody.
pub data Effect : Type 0 where
  writes_local may_trap calls releases stores reaches_device : Effect

abbrev pub effect_of : Instruction → Effect
effect_of (const_int dst v) = Effect.writes_local
effect_of (const_float dst v) = Effect.writes_local
effect_of (const_bool dst v) = Effect.writes_local
effect_of (string_new dst v) = Effect.writes_local
effect_of (assign dst src) = Effect.writes_local
effect_of (address_of dst src) = Effect.writes_local
effect_of (fn_addr dst name) = Effect.writes_local
effect_of (struct_new dst name fields) = Effect.writes_local
effect_of (field_load dst base field) = Effect.writes_local
effect_of (load dst src) = Effect.writes_local
effect_of (field_addr dst base field) = Effect.writes_local
effect_of (enum_new dst name tag payload) = Effect.writes_local
effect_of (enum_tag dst src) = Effect.writes_local
effect_of (enum_field_load dst base field) = Effect.writes_local
effect_of (enum_field_addr dst base field) = Effect.writes_local
effect_of (binary dst op lhs rhs ty) = Effect.may_trap
effect_of (call dst name args tys ty) = Effect.calls
effect_of (call_value dst callee args tys ty) = Effect.calls
effect_of (drop l ty) = Effect.releases
effect_of (free l) = Effect.releases
effect_of (field_store base field src) = Effect.stores
effect_of (enum_field_store base field src) = Effect.stores
effect_of (volatile_load dst address ty) = Effect.reaches_device
effect_of (volatile_store address src ty) = Effect.reaches_device

abbrev pub OnlyWrites : Instruction → Type 0
OnlyWrites i = effect_of i ≡ Effect.writes_local

abbrev pub is_more : Effect → Bool
is_more Effect.writes_local = false
is_more _ = true

-- What a run that comes to its end shows of an effect: no operation trapped in it.
abbrev pub is_seen : Effect → Bool
is_seen Effect.writes_local = false
is_seen Effect.may_trap = false
is_seen _ = true
