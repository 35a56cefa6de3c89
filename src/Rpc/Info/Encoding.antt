-- ===== src/Rpc/Info/Encoding.antt =====
-- The encodings of `src/rpc/message.rs`, and what their decoders make of them.
use citadel_runtime.Common.{
  ℕ, inl, inr, ◌+◌, ◌≡◌, refl, List, [], ◌∷◌, ◌++◌, append_assoc, map, length, arith,
}
use citadel_runtime.Common.Result.{Result, ok, Result-cases}
use citadel_runtime.Rpc.Info.{
  RangeInclusive, SignerAccountInfo, IdentityInfo, Strict, pair_of, range_of, encode_fields,
  decode_fields, encode_signer, decode_signer, encode_identity, decode_identity,
}

-- Where a value was written without an error, the number that is returned is that of its bytes, and
-- a reader finds the value behind which more bytes follow.
pub record RoundTrips {A : Type 0} (s : Strict A) : Type 0 where
  pub counts : (x : A) (n : ℕ) → (s.encode x).1 ≡ ok n → n ≡ length (s.encode x).0
  pub reads :
      (x : A) (n : ℕ) (rest : List ℕ)
      → (s.encode x).1 ≡ ok n
      → s.decode ((s.encode x).0 ++ rest) ≡ ok (x, rest)

map_ranges : (rs : List RangeInclusive) → map range_of (map pair_of rs) ≡ rs
map_ranges [] = refl
map_ranges (r ∷ rs) = rw (map_ranges rs) refl

length-append : (xs ys : List ℕ) → length (xs ++ ys) ≡ length xs + length ys
length-append [] ys = omega arith
length-append (x ∷ xs) ys = omega (arith, length-append xs ys)

module _ (text single_sig : Strict ℕ) (ranges : Strict (List (ℕ × ℕ))) where
  -- what was written behind `e`, with the number `n`: its bytes, their number, and that they are
  -- decoded to `a`
  abbrev pub WritesAs :
      {A : Type 0} → (List ℕ → Result ℕ (A × List ℕ)) → List ℕ → A → ℕ → List ℕ → Type 0
  WritesAs decode e a n after =
      (bytes : List ℕ) × (after ≡ e ++ bytes)
      × (n ≡ length bytes)
      × ((rest : List ℕ) → decode (bytes ++ rest) ≡ ok (a, rest))

  module _ (text_trip : RoundTrips text) (sig_trip : RoundTrips single_sig)
      (range_trip : RoundTrips ranges) where
    encode_fields-WritesAs :
        {A : Type 0} (make : ℕ → ℕ → List RangeInclusive → A) (name key : ℕ)
        (used : List RangeInclusive) (e : List ℕ) (n : ℕ)
        → (encode_fields text single_sig ranges name key used e).0 ≡ ok n
        → WritesAs
            (decode_fields text single_sig ranges make)
            e
            (make name key used)
            n
            (encode_fields text single_sig ranges name key used e).1
    unfolding encode_fields decode_fields
    encode_fields-WritesAs make name key used e n h =
        let first = (text.encode name).0 in
        let second = (single_sig.encode key).0 in
        let third = (ranges.encode (map pair_of used)).0 in
        elim (Result-cases (text.encode name).1) [
          | inr (inl (x, p)) ↦ absurd (ground arith)
          | inr (inr p) ↦ absurd (ground arith)
          | inl (l, p) ↦ elim (Result-cases (single_sig.encode key).1) [
            | inr (inl (x, q)) ↦ absurd (ground arith)
            | inr (inr q) ↦ absurd (ground arith)
            | inl (m, q) ↦ elim (Result-cases (ranges.encode (map pair_of used)).1) [
              | inr (inl (x, r)) ↦ absurd (ground arith)
              | inr (inr r) ↦ absurd (ground arith)
              | inl (k, r) ↦
                  let total : l + m + k ≡ n = ground arith in
                  (
                    first ++ (second ++ third),
                    ground (
                      arith,
                      append_assoc e first second,
                      append_assoc e first (second ++ third),
                      append_assoc (e ++ first) second third,
                    ),
                    omega (
                      arith,
                      total,
                      text_trip.counts name l p,
                      sig_trip.counts key m q,
                      range_trip.counts (map pair_of used) k r,
                      length-append first (second ++ third),
                      length-append second third,
                    ),
                    λ rest. ground (
                      arith,
                      append_assoc first (second ++ third) rest,
                      append_assoc second third rest,
                      text_trip.reads name l (second ++ (third ++ rest)) p,
                      sig_trip.reads key m (third ++ rest) q,
                      range_trip.reads (map pair_of used) k rest r,
                      map_ranges used,
                    ),
                  )
            ]
          ]
        ]

    -- The account of a signer or of an identity that is written without an error, behind whatever
    -- was written before, is decoded as it was encoded, whatever bytes follow, and the returned
    -- number is that of the bytes written; provided that the encodings of its fields count and are
    -- read back where they succeed.
    pub decode-encode_infos :
        (i : SignerAccountInfo) (j : IdentityInfo) (e : List ℕ) (n m : ℕ)
        → (encode_signer text single_sig ranges i e).0 ≡ ok n
        → (encode_identity text single_sig ranges j e).0 ≡ ok m
        → WritesAs
            (decode_signer text single_sig ranges)
            e
            i
            n
            (encode_signer text single_sig ranges i e).1
          × WritesAs
              (decode_identity text single_sig ranges)
              e
              j
              m
              (encode_identity text single_sig ranges j e).1
    unfolding encode_signer decode_signer encode_identity decode_identity
    decode-encode_infos i j e n m h k = (
      encode_fields-WritesAs (λ t k u. record { title = t; key = k; used = u }) i.title i.key i.used
          e n h,
      encode_fields-WritesAs (λ n k u. record { name = n; key = k; known = u }) j.name j.key j.known
          e m k,
    )
