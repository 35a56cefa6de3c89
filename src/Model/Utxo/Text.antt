-- ===== src/Model/Utxo/Text.antt =====
-- `Display` and `FromStr` of `Utxo` in `src/model/utxo.rs`. A text is the list of its bytes.
use citadel_runtime.Common.{
  ℕ, ◌<◌, ◌≡◌, refl, Bool, false, ◌||◌, ◌==◌, Option, none, some, List, [], ◌∷◌, ◌++◌, All, u16_mod,
  u32_mod, u64_mod, arith,
}
use citadel_runtime.Common.Decimal.{
  show, read, read-show, show-IsDigit, IsDigit, split, split-piece, split-next,
}
use citadel_runtime.Common.Result.{Result, ok, err, ok_or, and_then}
use citadel_runtime.Foreign.Bitcoin.{Txid}
use citadel_runtime.Model.Utxo.{Utxo}

-- `wallet::blockchain::ParseError`
pub data ParseError : Type 0 where
  parse_error : ParseError

-- the separators '@', '>', '%', '=' and ':'
unfoldable pub is_separator : ℕ → Bool
is_separator c = c == 64 || (c == 62 || (c == 37 || (c == 61 || c == 58)))

abbrev pub IsPlain : List ℕ → Type 0
IsPlain p = All (λ c. is_separator c ≡ false) p

-- How the other crates write and read ids, indexes and addresses: what they write has no separator,
-- and they read it again.
pub record Texts : Type 0 where
  pub show_txid : Txid → List ℕ
  pub read_txid : List ℕ → Option Txid
  pub show_index : ℕ → List ℕ
  pub read_index : List ℕ → Option ℕ
  pub read_address : List ℕ → Option ℕ
  pub txid_plain : (t : Txid) → IsPlain (show_txid t)
  pub index_plain : (i : ℕ) → IsPlain (show_index i)
  pub txid_trip : (t : Txid) → read_txid (show_txid t) ≡ some t
  pub index_trip : (i : ℕ) → read_index (show_index i) ≡ some i

-- the integers of the fields fit their types
pub record HasWidths (u : Utxo) : Type 0 where
  pub value : u.value < u64_mod
  pub height : u.height < u32_mod
  pub offset : u.offset < u16_mod
  pub vout : u.vout < u16_mod

module _ (t : Texts) where
  -- `Display`
  unfoldable pub display : Utxo → List ℕ
  display u =
      show u.value
      ++ 64
        ∷ (show u.height
            ++ 62
              ∷ (show u.offset
                  ++ 62
                    ∷ (t.show_txid u.txid
                        ++ 58 ∷ (show u.vout ++ 37 ∷ t.show_index u.derivation_index))))

  -- `.map(AddressCompat::from_str).transpose().ok().flatten()`
  maybe_address : Option (List ℕ) → Option ℕ
  maybe_address none = none
  maybe_address (some a) = t.read_address a

  -- the `Ok(Utxo { .. })`
  parsed : (value height offset txid vout index : List ℕ) → Option (List ℕ) → Result ParseError Utxo
  unfolding maybe_address
  parsed value height offset txid vout index address =
      and_then (ok_or (read u64_mod value) parse_error) (λ value'.
        and_then (ok_or (read u32_mod height) parse_error) (λ height'.
          and_then (ok_or (read u16_mod offset) parse_error) (λ offset'.
            and_then (ok_or (read u16_mod vout) parse_error) (λ vout'.
              and_then (ok_or (t.read_txid txid) parse_error) (λ txid'.
                and_then (ok_or (t.read_index index) parse_error) (λ index'. ok (record {
                  value = value';
                  height = height';
                  offset = offset';
                  txid = txid';
                  vout = vout';
                  derivation_index = index';
                  tweak = none;
                  address = maybe_address address;
                })))))))

  -- the `match` on the pieces: six of them, and perhaps an address
  from_pieces : List (List ℕ) → Result ParseError Utxo
  unfolding parsed
  from_pieces (value ∷ height ∷ offset ∷ txid ∷ vout ∷ index ∷ []) =
      parsed value height offset txid vout index none
  from_pieces (value ∷ height ∷ offset ∷ txid ∷ vout ∷ index ∷ address ∷ []) =
      parsed value height offset txid vout index (some address)
  from_pieces _ = err parse_error

  -- `FromStr`
  unfoldable pub from_str : List ℕ → Result ParseError Utxo
  unfolding from_pieces
  from_str s = from_pieces (split is_separator s)

digits-IsPlain : (s : List ℕ) → All IsDigit s → IsPlain s
unfolding is_separator
digits-IsPlain [] h = tt
digits-IsPlain (c ∷ cs) h = (ground (arith, h.0), digits-IsPlain cs h.1)

show-IsPlain : (n : ℕ) → IsPlain (show n)
show-IsPlain n = digits-IsPlain (show n) (show-IsDigit n)

-- a field that an output was read with was readable
needed :
    {A : Type 0} (o : Option A) (f : A → Result ParseError Utxo) {u : Utxo}
    → and_then (ok_or o parse_error) f ≡ ok u
    → (a : A) × (o ≡ some a) × (f a ≡ ok u)
needed none f h = absurd (ground arith)
needed (some a) f h = (a, refl, h)

module _ (t : Texts) where
  split-display :
      (u : Utxo)
      → split is_separator (display t u)
        ≡ show u.value
          ∷ show u.height
          ∷ show u.offset
          ∷ t.show_txid u.txid
          ∷ show u.vout
          ∷ t.show_index u.derivation_index
          ∷ []
  unfolding display is_separator
  split-display u =
      rw (split-next is_separator (show u.value) 64 _ (show-IsPlain u.value) refl) rw
        (split-next is_separator (show u.height) 62 _ (show-IsPlain u.height) refl) rw
        (split-next is_separator (show u.offset) 62 _ (show-IsPlain u.offset) refl) rw
        (split-next is_separator (t.show_txid u.txid) 58 _ (t.txid_plain u.txid) refl) rw
        (split-next is_separator (show u.vout) 37 _ (show-IsPlain u.vout) refl) rw
        (split-piece is_separator (t.show_index u.derivation_index)
          (t.index_plain u.derivation_index))

  -- An output that is written as text is read again, without its tweak and its address, which the
  -- text does not hold, if its integers fit their types.
  pub from_str-display :
      (u : Utxo)
      → HasWidths u
      → from_str t (display t u) ≡ ok (record u { tweak = none; address = none })
  unfolding from_str from_pieces parsed maybe_address
  from_str-display u w =
      rw (split-display u) rw (read-show u64_mod u.value w.value) rw
        (read-show u32_mod u.height w.height) rw (read-show u16_mod u.offset w.offset) rw
        (read-show u16_mod u.vout w.vout) rw (t.txid_trip u.txid) rw
        (t.index_trip u.derivation_index)
