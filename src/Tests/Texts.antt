-- ===== src/Tests/Texts.antt =====
-- The texts of outputs, and the bytes of the accounts of signers and identities.
use citadel_runtime.Common.{
  leb, Bool-cases, inl, inr, if◌then◌else◌, ℕ, zero, suc, ◌≡◌, refl, none, some, Option, List, [],
  ◌∷◌, ◌++◌, length, arith,
}
use citadel_runtime.Common.Result.{Result, ok, err, map_ok}
use citadel_runtime.Model.Utxo.{Utxo}
use citadel_runtime.Model.Utxo.Text.{
  Texts, HasWidths, IsPlain, is_separator, display, from_str, from_str-display,
}
use citadel_runtime.Rpc.Info.{
  SignerAccountInfo, IdentityInfo, Strict, encode_signer, decode_signer, encode_identity,
  decode_identity,
}
use citadel_runtime.Rpc.Info.Encoding.{WritesAs, RoundTrips, decode-encode_infos}
use citadel_runtime.Tests.{coin}

-- ids and indexes, written as so many zeros
zeros : ℕ → List ℕ
zeros zero = []
zeros (suc n) = 48 ∷ zeros n

zeros-IsPlain : (n : ℕ) → IsPlain (zeros n)
unfolding zeros is_separator
zeros-IsPlain zero = tt
zeros-IsPlain (suc n) = (refl, zeros-IsPlain n)

zeros_trip : (n : ℕ) → ◌≡◌ {A = Option ℕ} (some (length (zeros n))) (some n)
unfolding zeros
zeros_trip zero = refl
zeros_trip (suc n) = ground (arith, zeros_trip n)

abbrev texts : Texts
texts = record {
  show_txid = zeros;
  read_txid = λ s. some (length s);
  show_index = zeros;
  read_index = λ s. some (length s);
  read_address = λ s. none;
  txid_plain = zeros-IsPlain;
  index_plain = zeros-IsPlain;
  txid_trip = zeros_trip;
  index_trip = zeros_trip;
}

abbrev output : Utxo
output = record (coin 2 70000) { tweak = some (1, 2); address = some 3 }

fits : HasWidths output
fits = record {
  value = omega arith;
  height = omega arith;
  offset = omega arith;
  vout = omega arith;
}

from_str-display_example :
    from_str texts (display texts output) ≡ ok (record output { tweak = none; address = none })
from_str-display_example = from_str-display texts output fits

-- one byte for a value
byte_decoded : List ℕ → Result ℕ (ℕ × List ℕ)
byte_decoded [] = err 0
byte_decoded (n ∷ rest) = ok (n, rest)

abbrev byte : Strict ℕ
byte = record { encode = λ n. (n ∷ [], ok 1); decode = byte_decoded }

byte_trip : RoundTrips byte
unfolding byte_decoded
byte_trip = record { counts = λ x n h. ground arith; reads = λ x n rest h. refl }

-- pairs, each after a 1, and then a 0
pairs_encoded : List (ℕ × ℕ) → List ℕ
pairs_encoded [] = 0 ∷ []
pairs_encoded ((a, b) ∷ ps) = 1 ∷ a ∷ b ∷ pairs_encoded ps

pairs_decoded : List ℕ → Result ℕ (List (ℕ × ℕ) × List ℕ)
pairs_decoded (zero ∷ rest) = ok ([], rest)
pairs_decoded (suc n ∷ a ∷ b ∷ rest) = map_ok (λ e. ((a, b) ∷ e.0, e.1)) (pairs_decoded rest)
pairs_decoded _ = err 0

-- the writer fails at more than two pairs
abbrev pairs : Strict (List (ℕ × ℕ))
pairs = record {
  encode = λ ps.
      if leb (length ps) 2 then (pairs_encoded ps, ok (length (pairs_encoded ps))) else ([], err 7);
  decode = pairs_decoded;
}

pairs_read :
    (ps : List (ℕ × ℕ)) (rest : List ℕ) → pairs_decoded (pairs_encoded ps ++ rest) ≡ ok (ps, rest)
unfolding pairs_encoded pairs_decoded
pairs_read [] rest = refl
pairs_read ((a, b) ∷ ps) rest = rw (pairs_read ps rest)

pairs_trip : RoundTrips pairs
pairs_trip = record {
  counts = λ ps n h. elim (Bool-cases (leb (length ps) 2)) [
    | inl e ↦ ground arith
    | inr e ↦ absurd (ground arith)
  ];
  reads = λ ps n rest h. elim (Bool-cases (leb (length ps) 2)) [
    | inl e ↦ rw e (pairs_read ps rest)
    | inr e ↦ absurd (ground arith)
  ];
}

abbrev signer : SignerAccountInfo
signer = record { title = 1; key = 2; used = record { start = 3; end = 9 } ∷ [] }

abbrev identity : IdentityInfo
identity = record { name = 1; key = 2; known = [] }

decode-encode_infos_example :
    WritesAs byte byte pairs
      (decode_signer byte byte pairs)
      (8 ∷ [])
      signer
      6
      (encode_signer byte byte pairs signer (8 ∷ [])).1
    × WritesAs byte byte pairs
        (decode_identity byte byte pairs)
        (8 ∷ [])
        identity
        3
        (encode_identity byte byte pairs identity (8 ∷ [])).1
decode-encode_infos_example =
    decode-encode_infos byte byte pairs byte_trip byte_trip pairs_trip signer identity (8 ∷ []) 6 3
      (unfold encode_signer pairs_encoded in refl) (unfold encode_identity pairs_encoded in refl)
