-- ===== src/Prelude/Maps.antt =====
-- A Go map has each key once, and what holds of its entries is kept by the operations.
use Prim.Native.Nat.{ℕ, ◌+◌}
use mathlib.Core.Bool.{Bool, false}
use mathlib.Core.Option.{Option, none, some}
use mathlib.Core.Path.{◌≡◌, refl, subst}
use mathlib.Core.Logic.{inl, inr}
use mathlib.Core.List.{[], ◌∷◌}
use native.Mathlib.Omega.{arith}
use ranch.Prelude.Tests.{Bool-cases, Eq, if◌then◌else◌, ◌==◌}
use ranch.Prelude.Lists.{All, count_if}
use ranch.Prelude.Dict.{Dict, delete, get, get-delete, get-put, put}

-- A test of an option's value.
abbrev pub holds {ℓ} : {A : Type ℓ} → (A → Bool) → Option A → Bool
holds p none = false
holds p (some v) = p v

module _ {ℓ κ} {K : Type ℓ} {V : Type κ} ⦃e : Eq K⦄ where
  abbrev pub IsMap : Dict K V → Type κ
  IsMap [] = Unit
  IsMap ((k, v) ∷ m) = (get k m ≡ none) × IsMap m

  pub put-IsMap : (k : K) (v : V) (m : Dict K V) → IsMap m → IsMap (put k v m)
  unfolding get put
  put-IsMap k v [] h = (refl, tt)
  put-IsMap k v ((j, w) ∷ m) (free, h) =
      let rest = put-IsMap k v m h in
      elim (Bool-cases (j == k)) [
        | inl same ↦ rw same (subst (λ i. get i m ≡ none) ((e.beq_iff j k).0 same) free, h)
        | inr other ↦ rw other (ground (arith, get-put k j v m, e.beq_iff k j, e.beq_iff j k), rest)
      ]

  pub delete-IsMap : (k : K) (m : Dict K V) → IsMap m → IsMap (delete k m)
  unfolding delete
  delete-IsMap k [] h = tt
  delete-IsMap k ((j, w) ∷ m) (free, h) =
      let rest = delete-IsMap k m h in
      elim (Bool-cases (j == k)) [
        | inl same ↦ rw same rest
        | inr other ↦ rw other (ground (arith, get-delete k j m), rest)
      ]

  module _ {μ} (P : K × V → Type μ) where
    pub put-All : (k : K) (v : V) (m : Dict K V) → P (k, v) → All P m → All P (put k v m)
    unfolding put
    put-All k v [] p h = (p, tt)
    put-All k v ((j, w) ∷ m) p (q, h) =
        let rest = put-All k v m p h in
        elim (Bool-cases (j == k)) [ inl same ↦ rw same (p, h) | inr other ↦ rw other (q, rest) ]

    pub delete-All : (k : K) (m : Dict K V) → All P m → All P (delete k m)
    unfolding delete
    delete-All k [] h = tt
    delete-All k ((j, w) ∷ m) (q, h) =
        let rest = delete-All k m h in
        elim (Bool-cases (j == k)) [ inl same ↦ rw same rest | inr other ↦ rw other (q, rest) ]

    pub get-All : (k : K) (v : V) (m : Dict K V) → All P m → get k m ≡ some v → P (k, v)
    unfolding get
    get-All k v [] h at = ground arith
    get-All k v ((j, w) ∷ m) (q, h) at = elim (Bool-cases (j == k)) [
      | inl same ↦
          let same_value : w ≡ v = ground arith in
          subst (λ i. P (i, v)) ((e.beq_iff j k).0 same) (subst (λ u. P (j, u)) same_value q)
      | inr other ↦ get-All k v m h (ground arith)
    ]

  -- How many values pass a test, when one of them is written or taken away.
  module _ (q : V → Bool) where
    abbrev pub count_values : Dict K V → ℕ
    count_values m = count_if (λ entry. q entry.1) m

    pub count-put :
        (k : K) (v : V) (m : Dict K V)
        → count_values (put k v m) + (if holds q (get k m) then 1 else 0)
          ≡ count_values m + (if q v then 1 else 0)
    unfolding put get
    count-put k v [] = ground arith
    count-put k v ((j, w) ∷ m) =
        let rest = count-put k v m in
        elim (Bool-cases (j == k)) [
          | inl same ↦ rw same (omega arith)
          | inr other ↦ rw other (omega (arith, rest))
        ]

    count-delete_missing :
        (k : K) (m : Dict K V) → get k m ≡ none → count_values (delete k m) ≡ count_values m
    unfolding delete get
    count-delete_missing k [] h = refl
    count-delete_missing k ((j, w) ∷ m) h = elim (Bool-cases (j == k)) [
      | inl same ↦ ground arith
      | inr other ↦
          let rest = count-delete_missing k m (ground arith) in rw other (omega (arith, rest))
    ]

    pub count-delete :
        (k : K) (m : Dict K V)
        → IsMap m
        → count_values (delete k m) + (if holds q (get k m) then 1 else 0) ≡ count_values m
    unfolding delete get
    count-delete k [] h = refl
    count-delete k ((j, w) ∷ m) (free, h) =
        let rest = count-delete k m h in
        elim (Bool-cases (j == k)) [
          | inl same ↦
              let gone =
                count-delete_missing k m
                  (subst (λ i. get i m ≡ none) ((e.beq_iff j k).0 same) free) in
              rw same (omega (arith, gone))
          | inr other ↦ rw other (omega (arith, rest))
        ]
