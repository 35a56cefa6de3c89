-- ===== src/Cache/Derivation.antt =====
-- The addresses that were handed out, and the index of the next one.
use citadel_runtime.Common.{
  ℕ, ◌+◌, ◌<◌, ◌≤◌, ◌≡◌, sym, ◌∙◌, none, some, [], ◌∷◌, All, unwrap_or, if◌then◌else◌, leb, arith,
  inl, inr, Option-cases,
}
use citadel_runtime.Common.Key.{nat_key}
use citadel_runtime.Common.Map.{BTreeMap, get}
use citadel_runtime.Common.Result.{ok}
use citadel_runtime.Foreign.Bitcoin.{Address}
use citadel_runtime.Foreign.Wallet.{ChildIndex}
use citadel_runtime.Model.Contract.{ContractId}
use citadel_runtime.Cache.{
  Cache, contract_cache, cache_or_default, max_value, next_unused_derivation, last_used_derivation,
  address_derivation,
}

abbrev pub used : ContractId → Cache → BTreeMap Address ℕ
used id d = (cache_or_default id d).used_address_derivations

pub address_derivation-used :
    (id : ContractId) (a : Address) (d : Cache) → address_derivation id a d ≡ get a (used id d)
unfolding address_derivation get
address_derivation-used id a d = ground arith

get-le-max_value :
    (a : Address) (m : BTreeMap Address ℕ) (j : ℕ)
    → get a m ≡ some j
    → (k : ℕ) × (max_value m ≡ some k) × (j ≤ k)
unfolding get max_value
get-le-max_value a [] j h = cc
get-le-max_value a ((b, i) ∷ m) j h = elim (Option-cases (max_value m)) [
  | inl e ↦ (i, rw e, ground (arith, get-le-max_value a m j))
  | inr (k, e) ↦ (if leb i k then k else i, rw e, ground (arith, get-le-max_value a m j))
]

-- the last used index is at least that of every address
pub last_used-ge :
    (id : ContractId) (a : Address) (d : Cache) (i : ℕ)
    → address_derivation id a d ≡ some i
    → i ≤ unwrap_or (last_used_derivation id d) 0
unfolding address_derivation last_used_derivation
last_used-ge id a d i h = elim (Option-cases (contract_cache id d)) [
  | inl e ↦ absurd (ground arith)
  | inr (c, e) ↦
      let (k, m, le) = get-le-max_value a c.used_address_derivations i (ground arith) in
      ground arith
]

All-lt : (m : BTreeMap Address ℕ) (n : ℕ) → All (λ e. e.1 ≤ n) m → All (λ e. e.1 < n + 1) m
All-lt [] n h = tt
All-lt (e ∷ m) n h = (omega arith, All-lt m n h.1)

max_value-lt :
    (m : BTreeMap Address ℕ) (n k : ℕ) → All (λ e. e.1 < n) m → max_value m ≡ some k → k < n
unfolding max_value
max_value-lt [] n k h e = cc
max_value-lt ((b, i) ∷ m) n k h e = elim (Option-cases (max_value m)) [
  | inl q ↦ ground arith
  | inr (j, q) ↦ ground (arith, max_value-lt m n j)
]

next_of : ChildIndex → BTreeMap Address ℕ → ℕ
next_of hd m = elim (max_value m) [ none ↦ 0 | some i ↦ unwrap_or (hd.checked_inc i) 0 ]

next_unused-used :
    (hd : ChildIndex) (id : ContractId) (d : Cache)
    → next_unused_derivation hd id d ≡ ok (next_of hd (used id d))
unfolding next_unused_derivation next_of max_value
next_unused-used hd id d = elim (Option-cases (contract_cache id d)) [
  | inl e ↦ ground arith
  | inr (c, e) ↦ ground arith
]

-- The index that `next_unused_derivation` returns lies above every index in use, so it is not in
-- use, as long as every index in use lies below the largest index of all.
pub next_unused_fresh :
    (hd : ChildIndex) (id : ContractId) (d : Cache) (n : ℕ)
    → All (λ e. e.1 < hd.largest) (used id d)
    → next_unused_derivation hd id d ≡ ok n
    → (a : Address) (i : ℕ) → address_derivation id a d ≡ some i
    → i < n
unfolding next_of
next_unused_fresh hd id d n below h a i u =
    let g : get a (used id d) ≡ some i = sym (address_derivation-used id a d) ∙ u in
    let (k, m, le) = get-le-max_value a (used id d) i g in
    let lt = max_value-lt (used id d) hd.largest k below m in
    ground (arith, hd.inc_below k, next_unused-used hd id d)

All-le : (m : BTreeMap Address ℕ) (n k : ℕ) → n ≤ k → All (λ e. e.1 ≤ n) m → All (λ e. e.1 ≤ k) m
All-le [] n k h a = tt
All-le (e ∷ m) n k h a = (omega (arith, a.0), All-le m n k h a.1)

-- without a largest index there is no entry
no_max-All : (P : ℕ → Type 0) (m : BTreeMap Address ℕ) → max_value m ≡ none → All (λ e. P e.1) m
unfolding max_value
no_max-All P [] h = tt
no_max-All P ((b, i) ∷ m) h = elim (Option-cases (max_value m)) [
  | inl e ↦ absurd (ground arith)
  | inr (j, e) ↦ absurd (ground arith)
]

All-le-max_value : (m : BTreeMap Address ℕ) (k : ℕ) → max_value m ≡ some k → All (λ e. e.1 ≤ k) m
unfolding max_value
All-le-max_value [] k h = tt
All-le-max_value ((b, i) ∷ m) k h = elim (Option-cases (max_value m)) [
  | inl e ↦ (ground arith, no_max-All (λ i. i ≤ k) m e)
  | inr (j, e) ↦ (ground arith, All-le m j k (ground arith) (All-le-max_value m j e))
]

-- the index that `next_unused_derivation` returns lies above those of the entries
pub next_unused-All :
    (hd : ChildIndex) (id : ContractId) (d : Cache) (n : ℕ)
    → All (λ e. e.1 < hd.largest) (used id d)
    → next_unused_derivation hd id d ≡ ok n
    → All (λ e. e.1 < n) (used id d)
unfolding next_of
next_unused-All hd id d n below h = elim (Option-cases (max_value (used id d))) [
  | inl e ↦ no_max-All (λ i. i < n) (used id d) e
  | inr (k, e) ↦
      let lt = max_value-lt (used id d) hd.largest k below e in
      let inc : hd.checked_inc k ≡ some (k + 1) = hd.inc_below k lt in
      let q : n ≡ k + 1 = ground (arith, next_unused-used hd id d) in
      rw q (All-lt (used id d) k (All-le-max_value (used id d) k e))
]

-- Once the largest index is in use, `next_unused_derivation` returns index 0, used or not.
pub next_unused_wraps :
    (hd : ChildIndex) (id : ContractId) (d : Cache) (a : Address)
    → All (λ e. e.1 ≤ hd.largest) (used id d)
    → address_derivation id a d ≡ some hd.largest
    → next_unused_derivation hd id d ≡ ok 0
unfolding next_of
next_unused_wraps hd id d a below u =
    let g : get a (used id d) ≡ some hd.largest = sym (address_derivation-used id a d) ∙ u in
    let (k, m, le) = get-le-max_value a (used id d) hd.largest g in
    let lt : k < hd.largest + 1 =
      max_value-lt (used id d) (hd.largest + 1) k (All-lt (used id d) hd.largest below) m in
    let q : k ≡ hd.largest = omega arith in ground (arith, hd.inc_largest, next_unused-used hd id d)
