-- ===== src/Model/Utxo.antt =====
-- `src/model/utxo.rs`
pub mod Text
use citadel_runtime.Common.{ℕ, ◌≡◌, Option, none, some, List, [], ◌∷◌, arith}
use citadel_runtime.Common.Key.{Key}
use citadel_runtime.Common.Map.{BTreeMap}
use citadel_runtime.Foreign.Bitcoin.{Txid, AssetId, Slice32, PublicKey, OutPoint}

-- `Allocations`: the value of each asset on each outpoint
abbrev pub Allocations : Type 0
Allocations = BTreeMap OutPoint (BTreeMap AssetId ℕ)

pub record Utxo : Type 0 where
  pub value : ℕ
  pub height : ℕ
  pub offset : ℕ
  pub txid : Txid
  pub vout : ℕ
  pub derivation_index : ℕ
  pub tweak : Option (Slice32 × PublicKey)
  pub address : Option ℕ

-- `Utxo::outpoint`
abbrev pub outpoint : Utxo → OutPoint
outpoint u = record { txid = u.txid; vout = u.vout }

tweak_words : Option (Slice32 × PublicKey) → List ℕ → List ℕ
tweak_words none rest = 0 ∷ 0 ∷ 0 ∷ rest
tweak_words (some (t, p)) rest = 1 ∷ t ∷ p ∷ rest

address_words : Option ℕ → List ℕ
address_words none = 0 ∷ 0 ∷ []
address_words (some a) = 1 ∷ a ∷ []

unfoldable pub utxo_words : Utxo → List ℕ
unfolding tweak_words address_words
utxo_words u =
    u.value
    ∷ u.height
    ∷ u.offset
    ∷ u.txid
    ∷ u.vout
    ∷ u.derivation_index
    ∷ tweak_words u.tweak (address_words u.address)

pub utxo_words_injective : (a b : Utxo) → utxo_words a ≡ utxo_words b → a ≡ b
unfolding utxo_words
utxo_words_injective a b h = ground arith

-- `derive(Eq, Hash)`
instance abbrev pub utxo_key : Key Utxo
utxo_key = record { words = utxo_words; words_injective = utxo_words_injective }
