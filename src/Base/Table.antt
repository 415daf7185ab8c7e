-- ===== src/Base/Table.antt =====
-- The hash maps of the program (`std::unordered_map`) as association lists, in the order in
-- which the program iterates, which C++ leaves open. A key stands at most once when `Distinct`.
use mathlib.Core.Logic.{◌⊎◌}
use mathlib.Core.Logic.{inl, inr}
use mathlib.Core.Path.{subst}
use some_server.Base.Tests.{Bool-cases}
use mathlib.Core.Path.{◌≡◌, refl}
use mathlib.Core.Bool.{Bool, false}
use mathlib.Core.List.{List, [], ◌∷◌}
use mathlib.Core.Option.{Option, none, some}
use native.Mathlib.Omega.{arith}
use some_server.Base.Tests.{Eq, ◌==◌, if◌then◌else◌, is_some}

abbrev pub Table : Type 0 → Type 0 → Type 0
Table K V = List (K × V)

module _ {K : Type 0} {V : Type 0} ⦃e : Eq K⦄ where
  -- `it = map.find(k)`, then `it->second`
  unfoldable pub find : K → Table K V → Option V
  find k [] = none
  find k ((j, v) ∷ m) = if j == k then some v else find k m

  -- `map[k] = v`
  unfoldable pub put : K → V → Table K V → Table K V
  put k v [] = (k, v) ∷ []
  put k v ((j, w) ∷ m) = if j == k then (k, v) ∷ m else (j, w) ∷ put k v m

  -- `map.erase(k)`
  unfoldable pub erase : K → Table K V → Table K V
  erase k [] = []
  erase k ((j, v) ∷ m) = let rest = erase k m in if j == k then rest else (j, v) ∷ rest

  -- `map.contains(k)`
  abbrev pub contains : K → Table K V → Bool
  contains k m = is_some (find k m)

  pub find-put :
      (k j : K) (v : V) (m : Table K V) → find j (put k v m) ≡ (if k == j then some v else find j m)
  unfolding find put
  find-put k j v [] = refl
  find-put k j v ((i, w) ∷ m) =
      ground (arith, e.beq_iff k j, e.beq_iff i k, e.beq_iff i j, find-put k j v m)

  pub find-put_same : (k : K) (v : V) (m : Table K V) → find k (put k v m) ≡ some v
  find-put_same k v m = ground (arith, find-put k k v m, e.beq_iff k k)

  pub find-erase :
      (k j : K) (m : Table K V) → find j (erase k m) ≡ (if k == j then none else find j m)
  unfolding find erase
  find-erase k j [] = ground arith
  find-erase k j ((i, w) ∷ m) =
      ground (arith, e.beq_iff k j, e.beq_iff i k, e.beq_iff i j, find-erase k j m)

  pub find-put_other :
      (k j : K) (v : V) (m : Table K V) → (k == j) ≡ false → find j (put k v m) ≡ find j m
  find-put_other k j v m h = ground (arith, find-put k j v m)

  pub find-erase_same : (k : K) (m : Table K V) → find k (erase k m) ≡ none
  find-erase_same k m = ground (arith, find-erase k k m, e.beq_iff k k)

  pub find-erase_other :
      (k j : K) (m : Table K V) → (k == j) ≡ false → find j (erase k m) ≡ find j m
  find-erase_other k j m h = ground (arith, find-erase k j m)

  -- Who is found after a write, and after an erasure.
  pub find-put_cases :
      (k j : K) (v w : V) (m : Table K V)
      → find j (put k v m) ≡ some w
      → ((k ≡ j) × (v ≡ w)) ⊎ (find j m ≡ some w)
  find-put_cases k j v w m h = ground (arith, find-put k j v m, e.beq_iff k j)

  pub find-erase_cases :
      (k j : K) (w : V) (m : Table K V) → find j (erase k m) ≡ some w → find j m ≡ some w
  find-erase_cases k j w m h = ground (arith, find-erase k j m, e.beq_iff k j)

-- The keys, in the order of iteration.
abbrev pub keys : {K V : Type 0} → Table K V → List K
keys [] = []
keys ((k, v) ∷ m) = k ∷ keys m

module _ {K : Type 0} {V : Type 0} ⦃e : Eq K⦄ where
  -- No key stands twice.
  abbrev pub Distinct : Table K V → Type 0
  Distinct [] = Unit
  Distinct ((k, v) ∷ m) = (find k m ≡ none) × Distinct m

  pub Distinct-put : (k : K) (v : V) (m : Table K V) → Distinct m → Distinct (put k v m)
  unfolding put find
  Distinct-put k v [] d = (refl, tt)
  Distinct-put k v ((j, w) ∷ m) d = elim (Bool-cases (j == k)) [
    | inl t ↦ rw t (ground (arith, e.beq_iff j k), d.1)
    | inr t ↦
        rw t
          (ground (arith, find-put k j v m, e.beq_iff j k, e.beq_iff k j), Distinct-put k v m d.1)
  ]

  pub Distinct-erase : (k : K) (m : Table K V) → Distinct m → Distinct (erase k m)
  unfolding erase find
  Distinct-erase k [] d = tt
  Distinct-erase k ((j, w) ∷ m) d = elim (Bool-cases (j == k)) [
    | inl t ↦ rw t (Distinct-erase k m d.1)
    | inr t ↦ rw t (ground (arith, find-erase k j m), Distinct-erase k m d.1)
  ]

-- Every entry satisfies `P`.
module _ {K : Type 0} {V : Type 0} where
  abbrev pub AllEntries : (K → V → Type 0) → Table K V → Type 0
  AllEntries P [] = Unit
  AllEntries P ((k, v) ∷ m) = P k v × AllEntries P m

module _ {K : Type 0} {V : Type 0} (P Q : K → V → Type 0) where
  pub AllEntries-mono :
      (m : Table K V) → ((k : K) (v : V) → P k v → Q k v) → AllEntries P m → AllEntries Q m
  AllEntries-mono [] f all = tt
  AllEntries-mono ((k, v) ∷ m) f all = (f k v all.0, AllEntries-mono m f all.1)

module _ {K : Type 0} {V : Type 0} ⦃e : Eq K⦄ (P : K → V → Type 0) where
  -- What remains after an erasure has another key.
  pub AllEntries-erased :
      (k : K) (m : Table K V)
      → AllEntries P m
      → AllEntries (λ j v. ((j == k) ≡ false) × P j v) (erase k m)
  unfolding erase
  AllEntries-erased k [] all = tt
  AllEntries-erased k ((j, w) ∷ m) all = elim (Bool-cases (j == k)) [
    | inl t ↦ rw t (AllEntries-erased k m all.1)
    | inr t ↦ rw t ((t, all.0), AllEntries-erased k m all.1)
  ]

module _ {K : Type 0} {V : Type 0} ⦃e : Eq K⦄ (P : K → V → Type 0) where
  pub AllEntries-find : (k : K) (v : V) (m : Table K V) → AllEntries P m → find k m ≡ some v → P k v
  unfolding find
  AllEntries-find k v [] all h = cc
  AllEntries-find k v ((j, w) ∷ m) all h = elim (Bool-cases (j == k)) [
    | inl t ↦ subst (λ q. P q v) ((e.beq_iff j k).0 t) (subst (P j) (ground (arith)) all.0)
    | inr t ↦ AllEntries-find k v m all.1 (ground arith)
  ]

  pub AllEntries-put :
      (k : K) (v : V) (m : Table K V) → AllEntries P m → P k v → AllEntries P (put k v m)
  unfolding put
  AllEntries-put k v [] all p = (p, tt)
  AllEntries-put k v ((j, w) ∷ m) all p = elim (Bool-cases (j == k)) [
    | inl t ↦ rw t (p, all.1)
    | inr t ↦ rw t (all.0, AllEntries-put k v m all.1 p)
  ]

  pub AllEntries-erase : (k : K) (m : Table K V) → AllEntries P m → AllEntries P (erase k m)
  unfolding erase
  AllEntries-erase k [] all = tt
  AllEntries-erase k ((j, w) ∷ m) all = elim (Bool-cases (j == k)) [
    | inl t ↦ rw t (AllEntries-erase k m all.1)
    | inr t ↦ rw t (all.0, AllEntries-erase k m all.1)
  ]

pub ruleset table_laws = (find-put, find-erase)
