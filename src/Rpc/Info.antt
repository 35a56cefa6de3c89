-- ===== src/Rpc/Info.antt =====
-- The accounts of `src/rpc/message.rs` that bring their own strict encoding: `SignerAccountInfo` and
-- `IdentityInfo`. The encodings of their fields belong to other crates.
pub mod Encoding
use citadel_runtime.Common.{ℕ, ◌+◌, ◌≡◌, List, [], ◌∷◌, ◌++◌, map}
use citadel_runtime.Common.Result.{Result, ok, and_then, map_ok, Exec, ◌>>=◌, pure}

-- `RangeInclusive<u32>`
pub record RangeInclusive : Type 0 where
  pub start : ℕ
  pub end : ℕ

pub record SignerAccountInfo : Type 0 where
  pub title : ℕ
  pub key : ℕ
  pub used : List RangeInclusive

pub record IdentityInfo : Type 0 where
  pub name : ℕ
  pub key : ℕ
  pub known : List RangeInclusive

-- The strict encoding of a type: the bytes that are written for a value, with the number that is
-- returned or the error that ends the writing; and what a reader makes of the bytes before it, with
-- the bytes that it leaves.
pub record Strict (A : Type 0) : Type 0 where
  pub encode : A → List ℕ × Result ℕ ℕ
  pub decode : List ℕ → Result ℕ (A × List ℕ)

-- `value.strict_encode(&mut e)`, where `e` is the bytes written so far
abbrev pub write_field : {A : Type 0} → Strict A → A → Exec (List ℕ) ℕ ℕ
write_field s a e = ((s.encode a).1, e ++ (s.encode a).0)

abbrev pub pair_of : RangeInclusive → ℕ × ℕ
pair_of range = (range.start, range.end)

abbrev pub range_of : ℕ × ℕ → RangeInclusive
range_of p = record { start = p.0; end = p.1 }

module _ (text : Strict ℕ) (single_sig : Strict ℕ) (ranges : Strict (List (ℕ × ℕ))) where
  -- `strict_encode_list!(e; …)` of two fields, and the list of the ranges behind them
  encode_fields : ℕ → ℕ → List RangeInclusive → Exec (List ℕ) ℕ ℕ
  encode_fields name key used = do
    first ← write_field text name
    second ← write_field single_sig key
    written ← write_field ranges (map pair_of used)
    pure (first + second + written)

  -- the three `strict_decode`, in the order of the fields
  decode_fields : {A : Type 0} → (ℕ → ℕ → List RangeInclusive → A) → List ℕ → Result ℕ (A × List ℕ)
  decode_fields make b = and_then (text.decode b) (λ t.
      and_then (single_sig.decode t.1)
        (λ k. map_ok (λ u. (make t.0 k.0 (map range_of u.0), u.1)) (ranges.decode k.1)))

  -- `SignerAccountInfo::strict_encode`
  unfoldable pub encode_signer : SignerAccountInfo → Exec (List ℕ) ℕ ℕ
  unfolding encode_fields
  encode_signer i = encode_fields i.title i.key i.used

  -- `SignerAccountInfo::strict_decode`
  unfoldable pub decode_signer : List ℕ → Result ℕ (SignerAccountInfo × List ℕ)
  unfolding decode_fields
  decode_signer = decode_fields (λ t k u. record { title = t; key = k; used = u })

  -- `IdentityInfo::strict_encode`
  unfoldable pub encode_identity : IdentityInfo → Exec (List ℕ) ℕ ℕ
  unfolding encode_fields
  encode_identity i = encode_fields i.name i.key i.known

  -- `IdentityInfo::strict_decode`
  unfoldable pub decode_identity : List ℕ → Result ℕ (IdentityInfo × List ℕ)
  unfolding decode_fields
  decode_identity = decode_fields (λ n k u. record { name = n; key = k; known = u })
