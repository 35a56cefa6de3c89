-- ===== src/Model/Policy/Scripts.antt =====
-- Which scripts `derive_scripts` derives.
use citadel_runtime.Common.{
  ℕ, zero, suc, ◌+◌, ◌-◌, ◌≤◌, ◌≡◌, refl, true, ◌&&◌, none, some, [], leb, ltb, if◌then◌else◌,
  arith, All, Bool-cases, Option-cases, inl, inr,
}
use mathlib.Core.Path.{subst}
use citadel_runtime.Common.Key.{nat_key, same_iff}
use citadel_runtime.Common.Map.{BTreeMap, get, insert, get-insert, All-insert}
use citadel_runtime.Common.Result.{ok}
use citadel_runtime.Foreign.Bitcoin.{Script}
use citadel_runtime.Foreign.Wallet.{ChildIndex, Descriptor, DescriptorApi}
use citadel_runtime.Model.Policy.{Policy, translate, to_descriptor, derive_loop, derive_scripts}

-- an index and the script of the descriptor at it
abbrev pub IsDerived : DescriptorApi → Descriptor → ℕ × Script → Type 0
IsDerived api d e = e.1 ≡ api.script_pubkey (translate api d e.0)

module _ {E : Type 0} (api : DescriptorApi) (hd : ChildIndex) where
  derive_loop-get :
      (rounds : ℕ) (d : Descriptor) (index end : ℕ) (m : BTreeMap ℕ Script)
      → end ≤ hd.largest
      → rounds ≡ end - index
      → (scripts : BTreeMap ℕ Script) × (derive_loop {E = E} api hd rounds d index end m
          ≡ ok scripts)
        × ((i : ℕ)
            → get i scripts ≡ (
                if leb index i && ltb i end
                then some (api.script_pubkey (translate api d i))
                else get i m))
  unfolding derive_loop
  derive_loop-get zero d index end m h e = (m, refl, λ i. ground arith)
  derive_loop-get (suc rounds) d index end m h e =
      let s = api.script_pubkey (translate api d index) in
      let (scripts, derived, values) =
        derive_loop-get rounds d (index + 1) end (insert index s m) h (omega arith) in
      let next = hd.inc_below index (omega arith) in
      let more : ltb index end ≡ true = ground arith in
      (
        scripts,
        ground arith,
        λ i. ground (arith, values i, get-insert index i s m, same_iff index i),
      )

  derive_loop-IsDerived :
      (rounds : ℕ) (d : Descriptor) (index end : ℕ) (m scripts : BTreeMap ℕ Script)
      → All (IsDerived api d) m
      → derive_loop {E = E} api hd rounds d index end m ≡ ok scripts
      → All (IsDerived api d) scripts
  unfolding derive_loop
  derive_loop-IsDerived zero d index end m scripts h e =
      let same_map : m ≡ scripts = ground arith in subst (All (IsDerived api d)) same_map h
  derive_loop-IsDerived (suc rounds) d index end m scripts h e = elim (Bool-cases (ltb index end)) [
    | inl more ↦ elim (Option-cases (hd.checked_inc index)) [
      | inl none_left ↦ absurd (ground arith)
      | inr (next, n) ↦
          let s = api.script_pubkey (translate api d index) in
          derive_loop-IsDerived rounds d next end (insert index s m) scripts
            (All-insert (IsDerived api d) index s m h refl) (ground arith)
    ]
    | inr over ↦
        let same_map : m ≡ scripts = ground arith in subst (All (IsDerived api d)) same_map h
  ]

  pub derive_scripts-IsDerived :
      (p : Policy) (d : Descriptor) (from to : ℕ) (scripts : BTreeMap ℕ Script)
      → to_descriptor {E = E} api p ≡ ok d
      → derive_scripts {E = E} api hd p from to ≡ ok scripts
      → All (IsDerived api d) scripts
  unfolding derive_scripts
  derive_scripts-IsDerived p d from to scripts e h =
      derive_loop-IsDerived (to - from) d from to [] scripts tt (ground arith)

  -- For a policy that has a descriptor, and a range that does not go beyond the largest index,
  -- `derive_scripts` succeeds, and derives for each index of the range the script of the descriptor
  -- at this index, and nothing for any other.
  pub get-derive_scripts :
      (p : Policy) (d : Descriptor) (from to : ℕ)
      → to ≤ hd.largest
      → to_descriptor {E = E} api p ≡ ok d
      → (scripts : BTreeMap ℕ Script) × (derive_scripts {E = E} api hd p from to ≡ ok scripts)
        × ((i : ℕ)
            → get i scripts ≡ (
                if leb from i && ltb i to
                then some (api.script_pubkey (translate api d i))
                else none))
  unfolding derive_scripts get
  get-derive_scripts p d from to h e =
      let (scripts, derived, values) = derive_loop-get (to - from) d from to [] h refl in
      (scripts, ground arith, values)
