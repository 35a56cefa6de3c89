-- ===== src/Transfer/Change/Fresh.antt =====
-- The output for the change in `src/runtime/processor/transfer.rs`.
use citadel_runtime.Common.{
  refl, false, Bool, none, inl, inr, ℕ, ◌<◌, ◌≡◌, true, some, [], ◌∷◌, ◌++◌, All, ltb, arith, add64,
  length,
}
use citadel_runtime.Common.Result.{ok, pure, continue-eq-ok, Result-cases}
use citadel_runtime.Foreign.Bitcoin.{TxOut, Address}
use citadel_runtime.Model.Contract.{Contract, ContractId}
use citadel_runtime.Cache
use citadel_runtime.Cache.Derivation.{used, next_unused_fresh}
use citadel_runtime.Runtime.State.{Runtime, Services}
use citadel_runtime.Transfer.Change.{
  Output, Payment, BitcoinChange, bitcoin_change, change_output, sub64, index_of,
}
use citadel_runtime.Common.Key.{nat_key, same_self}
use citadel_runtime.Cache.Marking.{use-address_derivation, use_address_ok}
use citadel_runtime.Model.Policy.{AddressDerivation}
use citadel_runtime.Model.Contract.{contract_address}
use citadel_runtime.Runtime.Error.{Error}

-- `o` pays the value to the script of the address that the policy of the contract has at the index
-- `n`, which is not the one for legacy wallets, and the cache has the address at that index
abbrev pub PaysAt : Services → ContractId → Contract → ℕ → ℕ → TxOut → Runtime → Type 0
PaysAt sv id c value n o after =
    (a : AddressDerivation) × (contract_address {E = Error} sv.api c n false ≡ ok (some a))
    × (o.script_pubkey ≡ sv.api.address_script a.address)
    × (o.value ≡ value)
    × (Cache.address_derivation id a.address after.cache ≡ some n)

-- an address that was marked with success is recorded
marked :
    (sv : Services) (id : ContractId) (a : Address) (n : ℕ) (d : Cache.Cache) (new : Bool)
    → (Cache.use_address_derivation sv.cache_codec id a n d).0 ≡ ok new
    → Cache.address_derivation id a (Cache.use_address_derivation sv.cache_codec id a n d).1
      ≡ some n
marked sv id a n d new h =
    let at = use-address_derivation sv.cache_codec id id a a n d in
    elim (use_address_ok sv.cache_codec id a n d new h) [
      | inl (_, e) ↦ ground (arith, at, same_self id, same_self a)
      | inr (_, e) ↦ ground (arith, at, same_self id, same_self a)
    ]

change_output-PaysAt :
    (sv : Services) (id : ContractId) (c : Contract) (change : ℕ) (r : Runtime) (o : Output)
    → (change_output sv id c change r).0 ≡ ok o
    → (n : ℕ) × (Cache.next_unused_derivation sv.hd id r.cache ≡ ok n)
      × (o.1 ≡ some n)
      × PaysAt sv id c change n o.0 (change_output sv id c change r).1
unfolding change_output
change_output-PaysAt sv id c change r o h =
    elim (Result-cases (Cache.next_unused_derivation sv.hd id r.cache)) [
      | inr (inl (x, e)) ↦ absurd (ground arith)
      | inr (inr e) ↦ absurd (ground arith)
      | inl (n, e) ↦ elim (Result-cases (contract_address {E = Error} sv.api c n false)) [
        | inr (inl (x, f)) ↦ absurd (ground arith)
        | inr (inr f) ↦ absurd (ground arith)
        | inl (none, f) ↦ absurd (ground arith)
        | inl (some a, f) ↦
            elim (Result-cases
              (Cache.use_address_derivation sv.cache_codec id a.address n r.cache).0) [
                | inr (inl (x, g)) ↦ absurd (ground arith)
                | inr (inr g) ↦ absurd (ground arith)
                | inl (new, g) ↦
                    let at = marked sv id a.address n r.cache new g in
                    (n, e, ground arith, (a, f, ground arith, ground arith, ground arith))
              ]
      ]
    ]

bitcoin_change-state :
    (sv : Services) (id : ContractId) (c : Contract) (p : Payment) (fee input : ℕ) (r : Runtime)
    → ltb (add64 p.bitcoin_value fee) input ≡ true
    → (bitcoin_change sv id c p fee input r).1
      ≡ (change_output sv id c (sub64 (sub64 input p.bitcoin_value) fee) r).1
unfolding bitcoin_change
bitcoin_change-state sv id c p fee input r more =
    elim (Result-cases (change_output sv id c (sub64 (sub64 input p.bitcoin_value) fee) r).0) [
      | inl (o, e) ↦ rw (more, e) refl
      | inr (inl (x, e)) ↦ rw (more, e) refl
      | inr (inr e) ↦ rw (more, e) refl
    ]

-- If there is bitcoin change, it goes to one output behind those of the payment. This output has
-- what is left of the inputs after the payment and the fee, and pays it to the address of the
-- contract at an index, which is recorded for that address in the cache; and the index lies above
-- every index of the contract in use before, as long as all of those lie below the largest index
-- of all.
pub bitcoin_change_fresh :
    (sv : Services) (id : ContractId) (c : Contract) (p : Payment) (fee input : ℕ) (r : Runtime)
    (b : BitcoinChange)
    → All (λ e. e.1 < sv.hd.largest) (used id r.cache)
    → ltb (add64 p.bitcoin_value fee) input ≡ true
    → (bitcoin_change sv id c p fee input r).0 ≡ ok b
    → (out : TxOut) × (n : ℕ) × (b.outputs ≡ p.tx_outputs ++ (out, some n) ∷ [])
      × (b.change_vout ≡ some (length p.tx_outputs))
      × (b.derivation_indexes ≡ n ∷ [])
      × PaysAt sv id c
          (sub64 (sub64 input p.bitcoin_value) fee)
          n
          out
          (bitcoin_change sv id c p fee input r).1
      × ((a : Address) (i : ℕ) → Cache.address_derivation id a r.cache ≡ some i → i < n)
unfolding bitcoin_change
bitcoin_change_fresh sv id c p fee input r b below more h =
    let change = sub64 (sub64 input p.bitcoin_value) fee in
    let (o, made, rest) =
      continue-eq-ok (change_output sv id c change r)
        (λ out. pure (record {
          outputs = p.tx_outputs ++ out ∷ [];
          change = change;
          change_vout = some (length p.tx_outputs);
          derivation_indexes = index_of out;
        }))
        {b = b} (ground arith) in
    let (n, next, at, (a, f, script, value, known)) =
      change_output-PaysAt sv id c change r o made in
    (
      o.0,
      n,
      ground arith,
      ground arith,
      ground arith,
      (a, f, script, value, rw (bitcoin_change-state sv id c p fee input r more) known),
      next_unused_fresh sv.hd id r.cache n below next,
    )
