-- ===== src/Transfer/Change/Cached.antt =====
-- The payment and the change alter the cache only by the mark of the change address.
use mathlib.Core.Path.{subst}
use citadel_runtime.Common.{
  ℕ, false, ◌≡◌, refl, sym, Option, none, some, List, inl, inr, arith, Bool-cases, add64, ltb,
}
use citadel_runtime.Common.Result.{Result, ok, err, panic, Exec, ◌>>=◌, lift, continue, ok_or}
use citadel_runtime.Foreign.Bitcoin.{OutPoint, Address}
use citadel_runtime.Model.Utxo.{Utxo}
use citadel_runtime.Model.Contract.{Contract, ContractId, contract_address}
use citadel_runtime.Cache
use citadel_runtime.Cache.{Cache}
use citadel_runtime.Runtime.Error.{Error, cache_driver}
use citadel_runtime.Runtime.Message.{TransferInfo, bitcoin, rgb, descriptor, blind_utxo, psbt}
use citadel_runtime.Runtime.State.{Runtime, Services, on_cache, from_cache}
use citadel_runtime.Transfer.Coins.{Choice}
use citadel_runtime.Transfer.Change.{
  Payment, pay, bitcoin_change, change_output, change_seal, rgb_change, bitcoin_input_amount,
  no_change_address, sub64,
}
use citadel_runtime.Transfer.Prepare.Closed.{After, always-After, map_err-After}

-- a step that leaves the cache as it is
abbrev pub Leaves : {A : Type 0} → Exec Runtime Error A → Type 0
Leaves m = (r : Runtime) → (m r).1.cache ≡ r.cache

abbrev pub CacheKeeps :
    {A : Type 0} → (Cache → Type 0) → (Cache → Type 0) → Exec Runtime Error A → Type 0
CacheKeeps P F m = (r : Runtime) → P r.cache → After P F (m r).0 (m r).1.cache

module _ (P F : Cache → Type 0) (weaken : (s : Cache) → P s → F s) where
  continue-Cache :
      {A B : Type 0} (x : Result Error A) (r : Runtime) (f : A → Exec Runtime Error B)
      → After P F x r.cache
      → ((a : A) → CacheKeeps P F (f a))
      → After P F (continue x r f).0 (continue x r f).1.cache
  continue-Cache (ok a) r f p next = next a r p
  continue-Cache (err e) r f p next = p
  continue-Cache panic r f p next = p

  pub bind-CacheKeeps :
      {A B : Type 0} (m : Exec Runtime Error A) (f : A → Exec Runtime Error B)
      → CacheKeeps P F m
      → ((a : A) → CacheKeeps P F (f a))
      → CacheKeeps P F (m >>= f)
  bind-CacheKeeps m f keeps next r w = continue-Cache (m r).0 (m r).1 f (keeps r w) next

  pub frame-CacheKeeps : {A : Type 0} (m : Exec Runtime Error A) → Leaves m → CacheKeeps P F m
  frame-CacheKeeps m frame r w =
      always-After P F weaken (m r).0 (m r).1.cache (subst P (sym (frame r)) w)

module _ (sv : Services) (P F : Cache → Type 0) (weaken : (s : Cache) → P s → F s)
    (mark : (id : ContractId) (a : Address) (i : ℕ) (s : Cache)
      → P s
      → After P F
          (Cache.use_address_derivation sv.cache_codec id a i s).0
          (Cache.use_address_derivation sv.cache_codec id a i s).1) where
  abbrev Keeps : {A : Type 0} → Exec Runtime Error A → Type 0
  Keeps = CacheKeeps P F

  then-Keeps :
      {A B : Type 0} (m : Exec Runtime Error A) (f : A → Exec Runtime Error B)
      → Keeps m
      → ((a : A) → Keeps (f a))
      → Keeps (m >>= f)
  then-Keeps = bind-CacheKeeps P F weaken

  leave : {A : Type 0} (m : Exec Runtime Error A) → Leaves m → Keeps m
  leave = frame-CacheKeeps P F weaken

  pub pay-Keeps : (info : TransferInfo) (v : ℕ) → CacheKeeps P F (pay sv info v)
  unfolding pay
  pay-Keeps (bitcoin d) v r w = w
  pay-Keeps (rgb i (blind_utxo h)) v r w = w
  pay-Keeps (rgb i (descriptor d g)) v r w = w
  pay-Keeps (rgb i (psbt p)) v r w = weaken r.cache w

  change_output-Keeps :
      (id : ContractId) (c : Contract) (change : ℕ) → Keeps (change_output sv id c change)
  unfolding change_output
  change_output-Keeps id c change =
      then-Keeps (from_cache (Cache.next_unused_derivation sv.hd id)) _
        (λ r w. always-After P F weaken _ _ w)
        (λ index.
          then-Keeps (lift (contract_address sv.api c index false)) _
            (λ r w. always-After P F weaken _ _ w)
            (λ derived.
              then-Keeps (lift (ok_or derived no_change_address)) _
                (λ r w. always-After P F weaken _ _ w)
                (λ address.
                  then-Keeps
                    (on_cache
                      (Cache.use_address_derivation sv.cache_codec id address.address index))
                    _
                    (λ r w.
                      map_err-After P F weaken cache_driver _ _
                        (mark id address.address index r.cache w))
                    (λ u r w. w))))

  pub bitcoin_change-Keeps :
      (id : ContractId) (c : Contract) (p : Payment) (fee input : ℕ)
      → CacheKeeps P F (bitcoin_change sv id c p fee input)
  unfolding bitcoin_change
  bitcoin_change-Keeps id c p fee input r w =
      elim (Bool-cases (ltb (add64 p.bitcoin_value fee) input)) [
        | inl e ↦
            let change = sub64 (sub64 input p.bitcoin_value) fee in
            rw e (
              then-Keeps (change_output sv id c change) _ (change_output-Keeps id c change)
                (λ out r w. w) r w)
        | inr e ↦ rw e w
      ]

  change_seal-Leaves : (o : Option OutPoint) (vout : Option ℕ) → Leaves (change_seal sv o vout)
  unfolding change_seal
  change_seal-Leaves (some o) vout r = refl
  change_seal-Leaves none (some vout) r = refl
  change_seal-Leaves none none r = refl

  pub rgb_change-Leaves :
      (info : TransferInfo) (v : ℕ) (choice : Choice) (vout : Option ℕ)
      → Leaves (rgb_change sv info v choice vout)
  unfolding rgb_change
  rgb_change-Leaves info v choice vout r =
      ground (arith, change_seal-Leaves choice.change_outpoint vout r)

  pub input-Leaves : (id : ContractId) (us : List Utxo) → Leaves (bitcoin_input_amount id us)
  unfolding bitcoin_input_amount
  input-Leaves id us r = ground arith
