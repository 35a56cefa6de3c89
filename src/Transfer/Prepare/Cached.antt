-- ===== src/Transfer/Prepare/Cached.antt =====
-- A payment changes the cache only by the mark of its change address: what that keeps, the payment
-- keeps.
use citadel_runtime.Common.{ℕ, suc, Option, none, some, List, [], ◌∷◌, get_elem?, map}
use citadel_runtime.Common.Result.{Exec, ◌>>=◌, lift}
use citadel_runtime.Foreign.Bitcoin.{Invoice, Psbt, PsbtOutput, TxOut, Address}
use citadel_runtime.Model.Utxo.{outpoint}
use citadel_runtime.Model.Contract.{ContractId}
use citadel_runtime.Cache
use citadel_runtime.Cache.{Cache}
use citadel_runtime.Storage
use citadel_runtime.Runtime.Error.{Error}
use citadel_runtime.Runtime.Message.{TransferInfo, bitcoin, rgb}
use citadel_runtime.Runtime.State.{
  Runtime, Services, Transfer, on_storage, from_storage, from_cache,
}
use citadel_runtime.Transfer.Coins.{load_coins, select_coins}
use citadel_runtime.Transfer.Change.{Output, pay, bitcoin_change, rgb_change, bitcoin_input_amount}
use citadel_runtime.Transfer.Change.Cached.{
  Leaves, CacheKeeps, bind-CacheKeeps, frame-CacheKeeps, pay-Keeps, bitcoin_change-Keeps,
  rgb_change-Leaves, input-Leaves,
}
use citadel_runtime.Transfer.Prepare.{
  Draft, draft, commit, transfer, save_tweak, check_output, save_tweaks, rgb_operation,
  bitcoin_operation, make_psbt,
}
use citadel_runtime.Transfer.Prepare.Closed.{After, always-After}

module _ (sv : Services) (P F : Cache → Type 0) (weaken : (s : Cache) → P s → F s)
    (mark : (id : ContractId) (a : Address) (i : ℕ) (s : Cache)
      → P s
      → After P F
          (Cache.use_address_derivation sv.cache_codec id a i s).0
          (Cache.use_address_derivation sv.cache_codec id a i s).1) where
  abbrev Keeps : {A : Type 0} → Exec Runtime Error A → Type 0
  Keeps = CacheKeeps P F

  then-Keeps :
      {A B : Type 0} (m : Exec Runtime Error A) (f : A → Exec Runtime Error B)
      → Keeps m
      → ((a : A) → Keeps (f a))
      → Keeps (m >>= f)
  then-Keeps = bind-CacheKeeps P F weaken

  leave : {A : Type 0} (m : Exec Runtime Error A) → Leaves m → Keeps m
  leave = frame-CacheKeeps P F weaken

  draft-Keeps :
      (id : ContractId) (v fee : ℕ) (info : TransferInfo) (i : Invoice)
      → Keeps (draft sv id v fee info i)
  unfolding draft
  draft-Keeps id v fee info i =
      then-Keeps (from_storage (Storage.contract_ref id)) _ (λ r w. always-After P F weaken _ _ w)
        (λ contract.
          then-Keeps (from_cache (load_coins id info)) _ (λ r w. always-After P F weaken _ _ w)
            (λ coins.
              then-Keeps (lift (select_coins info v fee coins)) _
                (λ r w. always-After P F weaken _ _ w)
                (λ selection.
                  then-Keeps (pay sv info v) _ (pay-Keeps sv P F weaken mark info v) (λ payment.
                    let selected = selection.choice.selected in
                    then-Keeps (bitcoin_input_amount id selected) _
                      (leave (bitcoin_input_amount id selected)
                        (input-Leaves sv P F weaken mark id selected))
                      (λ input.
                        then-Keeps (bitcoin_change sv id contract payment fee input) _
                          (bitcoin_change-Keeps sv P F weaken mark id contract payment fee input)
                          (λ change.
                            then-Keeps (rgb_change sv info v selection.choice change.change_vout) _
                              (leave (rgb_change sv info v selection.choice change.change_vout) (
                                rgb_change-Leaves sv P F weaken mark info v selection.choice
                                  change.change_vout))
                              (λ assets.
                                then-Keeps (lift sv.connect) _
                                  (λ r w. always-After P F weaken _ _ w)
                                  (λ u.
                                    then-Keeps
                                      (lift (make_psbt sv contract.policy selected change.outputs))
                                      _ (λ r w. always-After P F weaken _ _ w)
                                      (λ made r w. w)))))))))

  save_tweak-Keeps :
      (id : ContractId) (w : Psbt) (n : ℕ) (out : Option TxOut) (found : Option (ℕ × ℕ × ℕ))
      → Keeps (save_tweak sv id w n out found)
  unfolding save_tweak
  save_tweak-Keeps id w n out none r p = p
  save_tweak-Keeps id w n none (some (k, t, i)) r p = weaken r.cache p
  save_tweak-Keeps id w n (some out) (some (k, t, i)) r p = always-After P F weaken _ _ p

  check_output-Keeps :
      (id : ContractId) (w : Psbt) (n : ℕ) (out : PsbtOutput) (o : Option Output)
      → Keeps (check_output sv id w n out o)
  unfolding check_output
  check_output-Keeps id w n out none r p = weaken r.cache p
  check_output-Keeps id w n out (some (tx_out, index)) r p =
      save_tweak-Keeps id w n (get_elem? w.unsigned_tx.output n) _ r p

  save_tweaks-Keeps :
      (id : ContractId) (outs : List Output) (w : Psbt) (n : ℕ) (rest : List PsbtOutput)
      → Keeps (save_tweaks sv id outs w n rest)
  unfolding save_tweaks
  save_tweaks-Keeps id outs w n [] r p = p
  save_tweaks-Keeps id outs w n (out ∷ rest) r p =
      then-Keeps (check_output sv id w n out (get_elem? outs n))
        (λ u. save_tweaks sv id outs w (suc n) rest)
        (check_output-Keeps id w n out (get_elem? outs n))
        (λ u. save_tweaks-Keeps id outs w (suc n) rest) r p

  commit-Keeps : (info : TransferInfo) (d : Draft) → Keeps (commit sv info d)
  unfolding commit
  commit-Keeps (bitcoin to) d =
      then-Keeps
        (on_storage
          (Storage.register_operation sv.storage_codec d.pay_from (bitcoin_operation sv d)))
        _ (λ r w. always-After P F weaken _ _ w) (λ u r p. p)
  commit-Keeps (rgb a receiver) d =
      then-Keeps
        (lift (
          sv.rgb_transfer a (map outpoint d.selection.choice.selected)
            ((d.payment.rgb_endpoint, d.asset_value) ∷ []) d.asset_change d.draft_psbt))
        _ (λ r w. always-After P F weaken _ _ w)
        (λ (t : Transfer).
          then-Keeps (save_tweaks sv d.pay_from d.change.outputs t.witness 0 t.witness.outputs) _
            (save_tweaks-Keeps d.pay_from d.change.outputs t.witness 0 t.witness.outputs)
            (λ u.
              then-Keeps (lift (sv.enclose t.disclosure)) _ (λ r w. always-After P F weaken _ _ w)
                (λ u2.
                  then-Keeps
                    (on_storage (
                      Storage.register_operation sv.storage_codec d.pay_from
                        (rgb_operation sv d t)))
                    _ (λ r w. always-After P F weaken _ _ w) (λ u3 r p. p))))

  pub transfer-CacheKeeps :
      (id : ContractId) (v fee : ℕ) (info : TransferInfo) (i : Invoice)
      → CacheKeeps P F (transfer sv id v fee info i)
  unfolding transfer
  transfer-CacheKeeps id v fee info i =
      then-Keeps (draft sv id v fee info i) (commit sv info) (draft-Keeps id v fee info i)
        (commit-Keeps info)
