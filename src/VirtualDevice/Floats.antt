-- ===== src/VirtualDevice/Floats.antt =====
-- `f32_to_i16` of client/packages/vita_virtual_device/src/lib.rs. A float is its bit pattern, and
-- Rust's operations on `f32` are a parameter.
use vita_oxi_pad.Base.{ℕ, Bool}
use vita_oxi_pad.Base.Int.{ℤ, pos}
use vita_oxi_pad.NetProtocol.{F32}

pub record Floats : Type 0 where
  -- The float of a whole number that a literal such as `-35.0` writes.
  pub literal : ℤ → F32
  pub neg : F32 → F32
  pub clamp : F32 → F32 → F32 → F32
  pub sub : F32 → F32 → F32
  pub mul : F32 → F32 → F32
  pub div : F32 → F32 → F32
  pub round : F32 → F32
  -- The float of a literal in hundredths, such as `0.02`.
  pub hundredths : ℕ → F32
  -- `>`
  pub gt : F32 → F32 → Bool
  -- `as u16`
  pub as_u16 : F32 → ℕ
  -- `as i16`
  pub as_i16 : F32 → ℤ

module _ (fl : Floats) where
  unfoldable pub f32_to_i16 : F32 → F32 → F32 → ℤ
  f32_to_i16 value min_value max_value =
      let clamped = fl.clamp value min_value max_value in
      let normalized = fl.div (fl.sub clamped min_value) (fl.sub max_value min_value) in
      let scaled = fl.sub (fl.mul normalized (fl.literal (pos 65536))) (fl.literal (pos 32768)) in
      fl.as_i16 (fl.round scaled)
