-- ===== src/Cache/Spendable.antt =====
-- `unspent_bitcoin_only` of `src/cache/file/driver.rs` as a selection from the bitcoin outputs.
use citadel_runtime.Common.{◌≡◌, Bool, some, [], filter, arith, Option-cases, inl, inr}
use citadel_runtime.Common.Key.{nat_key}
use citadel_runtime.Common.Map.{BTreeMap, get}
use citadel_runtime.Common.Set.{HashSet, contains, collect, distinct}
use citadel_runtime.Common.Result.{ok}
use citadel_runtime.Foreign.Bitcoin.{AssetId, bitcoin_id, outpoint_key}
use citadel_runtime.Model.Utxo.{Utxo, outpoint, utxo_key}
use citadel_runtime.Model.Contract.{ContractId}
use citadel_runtime.Cache.{
  Cache, contract_cache, unspent, unspent_bitcoin_only, allocations_of, without_assets,
}

pub unspent_bitcoin_only-filter :
    (id : ContractId) (d : Cache) (us all : HashSet Utxo) (m : BTreeMap AssetId (HashSet Utxo))
    → unspent_bitcoin_only id d ≡ ok us
    → unspent id d ≡ ok m
    → get bitcoin_id m ≡ some all
    → (p : Utxo → Bool) × (us ≡ distinct (filter p all))
unfolding unspent_bitcoin_only get
unspent_bitcoin_only-filter id d us all m h e g = elim (Option-cases (contract_cache id d)) [
  | inl n ↦ absurd (ground arith)
  | inr (c, n) ↦ (
    λ u. contains (outpoint u) (collect (without_assets (allocations_of c.unspent []))),
    ground arith,
  )
]
