-- ===== src/Sync/Tweaked.antt =====
-- The change of an RGB payment of `src/runtime/processor/transfer.rs`, and `chain_sync` after it.
use citadel_runtime.Common.{
  ℕ, ◌%◌, ◌<◌, ◌≡◌, refl, true, some, List, [], ◌∷◌, map, Elem, u32_mod, arith, inl, inr,
  Bool-cases,
}
use mathlib.Core.Path.{subst}
use citadel_runtime.Common.Key.{Key, nat_key, same, same_iff}
use citadel_runtime.Common.Map.{BTreeMap, get}
use citadel_runtime.Common.Set.{contains}
use citadel_runtime.Common.Result.{ok}
use citadel_runtime.Foreign.Bitcoin.{AssetId, Invoice, Script, bitcoin_id, outpoint_key}
use citadel_runtime.Foreign.Wallet.{Descriptor}
use citadel_runtime.Model.Utxo.{Utxo, outpoint}
use citadel_runtime.Model.Policy.{to_descriptor}
use citadel_runtime.Model.Contract.{Contract, ContractId, TweakedOutput, tweaked_key}
use citadel_runtime.Storage
use citadel_runtime.Runtime.Error.{Error}
use citadel_runtime.Runtime.Message.{RgbReceiver, rgb, PreparedTransfer}
use citadel_runtime.Runtime.State.{Runtime, Services, ListUnspent}
use citadel_runtime.Transfer.Prepare.{Draft, draft, transfer}
use citadel_runtime.Storage.Tweaks.{Known}
use citadel_runtime.Transfer.Prepare.Tweaks.{IsTweakOf, transfer_learns}
use citadel_runtime.Sync.{chain_sync}
use citadel_runtime.Sync.Scan.Gathered.{listed_at}
use citadel_runtime.Sync.Rounds.Rule.{Answers}
use citadel_runtime.Sync.Complete.{tweaked, chain_sync_complete}

contains-Elem : {A : Type 0} ⦃k : Key A⦄ (a : A) (xs : List A) → contains a xs ≡ true → Elem a xs
unfolding contains
contains-Elem a [] h = cc
contains-Elem a (x ∷ xs) h = elim (Bool-cases (same x a)) [
  | inl e ↦ inl ((same_iff x a).0 e)
  | inr e ↦ inr (contains-Elem a xs (rw e at h))
]

Elem-Known :
    (id : ContractId) (t : TweakedOutput) (d : Storage.Storage) (c : Contract)
    → Known id t d
    → Storage.contract_ref id d ≡ ok c
    → Elem t c.contents.p2c_tweaks
unfolding Storage.contract_ref
Elem-Known id t d c (c', e, k) stored =
    let same_contract : c' ≡ c = ground arith in
    subst (λ (c : Contract). Elem t c.contents.p2c_tweaks) same_contract
      (contains-Elem t c'.contents.p2c_tweaks k)

-- What an asset payment pays back is found. When an RGB payment has been composed, and `t` is the
-- tweak that an output of its witness has, at the index of that output of the payment, the next
-- `chain_sync` of the contract that succeeds, with a positive lookup depth, has in its reply every
-- output that the electrum server lists for the script of `t` and places in a block, whatever
-- addresses were handed out. The policy of the contract compiles, and the server answers a batch
-- with what it lists for each script.
pub transfer_change-found :
    (sv : Services) (hist : Script → List ListUnspent) (id : ContractId) (v fee : ℕ) (a : AssetId)
    (receiver : RgbReceiver) (i : Invoice) (r : Runtime) (p : PreparedTransfer) (d : Draft) (n : ℕ)
    (t : TweakedOutput) (c : Contract) (compiled : Descriptor) (fuel depth : ℕ)
    (assets : BTreeMap AssetId (List Utxo)) (r' : Runtime) (item : ListUnspent) (pos : ℕ)
    → Answers sv hist
    → (transfer sv id v fee (rgb a receiver) i r).0 ≡ ok p
    → (draft sv id v fee (rgb a receiver) i r).0 ≡ ok d
    → IsTweakOf sv d.change.outputs p.psbt n t
    → Storage.contract_ref id (transfer sv id v fee (rgb a receiver) i r).1.storage ≡ ok c
    → to_descriptor {E = Error} sv.api c.policy ≡ ok compiled
    → 0 < depth
    → chain_sync sv fuel id depth (transfer sv id v fee (rgb a receiver) i r).1
      ≡ some (ok assets, r')
    → Elem item (hist t.script)
    → sv.get_merkle item.tx_hash (item.height % u32_mod) ≡ some pos
    → (us : List Utxo) × (get bitcoin_id assets ≡ some us)
      × (contains (listed_at item) (map outpoint us) ≡ true)
transfer_change-found sv hist id v fee a receiver i r p d n t c compiled fuel depth assets r' item
      pos answering made drafted tweak stored compiles positive synced listed placed =
    let r1 = (transfer sv id v fee (rgb a receiver) i r).1 in
    let known = transfer_learns sv id v fee a receiver i r p d n t made drafted tweak in
    let (us, carriers, found, _, _, _) =
      chain_sync_complete sv fuel id depth r1 assets r' hist c compiled answering stored compiles
        synced (tweaked t) item pos positive
        (inl (t, Elem-Known id t r1.storage c known stored, refl)) listed placed in
    (us, carriers, found)
