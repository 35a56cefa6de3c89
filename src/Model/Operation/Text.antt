-- ===== src/Model/Operation/Text.antt =====
-- `Display` and `FromStr` of `PsbtWrapper` in `src/model/operation.rs`.
use citadel_runtime.Common.{ℕ, ◌≡◌, Option, some, List}
use citadel_runtime.Common.Result.{Result, ok, ok_or, and_then}
use citadel_runtime.Foreign.Bitcoin.{Psbt}

-- `consensus::{serialize, deserialize}` and `base64::{encode, decode}`; `non_minimal` is the error
-- `NonMinimalVarInt`
pub record PsbtTexts : Type 0 where
  pub serialize : Psbt → List ℕ
  pub deserialize : List ℕ → Result ℕ Psbt
  pub encode : List ℕ → List ℕ
  pub decode : List ℕ → Option (List ℕ)
  pub non_minimal : ℕ
  pub psbt_trip : (p : Psbt) → deserialize (serialize p) ≡ ok p
  pub base64_trip : (bytes : List ℕ) → decode (encode bytes) ≡ some bytes

module _ (t : PsbtTexts) where
  unfoldable psbt_display : Psbt → List ℕ
  psbt_display p = t.encode (t.serialize p)

  unfoldable psbt_from_str : List ℕ → Result ℕ Psbt
  psbt_from_str s = and_then (ok_or (t.decode s) t.non_minimal) t.deserialize

  -- A PSBT that is written as text is read again.
  psbt_from_str-display : (p : Psbt) → psbt_from_str (psbt_display p) ≡ ok p
  unfolding psbt_display psbt_from_str
  psbt_from_str-display p = rw (t.base64_trip (t.serialize p)) (t.psbt_trip p)
