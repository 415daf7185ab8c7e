-- ===== src/Storage/Configuration/Resolution.antt =====
-- What a configuration that resolves promises to the storage service.
use some_server.Base.{
  if◌then◌else◌, ◌≡◌, ◌⊎◌, inl, inr, refl, sym, ap, ◌∙◌, subst, true, false, Option, none, some, [],
  ◌∷◌, arith, ◌==◌, Eq_ℕ, Eq_String, Eq_Bytes, bytes_eq_iff, Bool-cases, Option-cases, Bytes,
}
use some_server.Base.Table.{Table, find, find-put}
use some_server.Storage.Configuration.{
  CommonConfiguration, StorageConfiguration, DatasetConfiguration, DatasetTimingConfiguration,
  ResolvedDatasetConfiguration, ResolvedStorageConfiguration, Problem, Checked, problem, resolved,
  check_dataset, add_dataset, resolve_each, resolve_storage_configuration,
}
use some_server.Storage.Configuration.Checking.{
  IsUsable, Explains, check_dataset-IsUsable, check_dataset-Explains,
}

Checked-cases :
    (c : Checked)
    → ((p : Problem) × (c ≡ problem p))
      ⊎ ((item : ResolvedDatasetConfiguration) × (c ≡ resolved item))
Checked-cases (problem p) = inl (p, refl)
Checked-cases (resolved item) = inr (item, refl)

-- An entry of the configuration.
abbrev pub HasEntry : Bytes → DatasetConfiguration → Table Bytes DatasetConfiguration → Type 0
HasEntry name dataset [] = true ≡ false
HasEntry name dataset ((first, d) ∷ rest) =
    ((first ≡ name) × (d ≡ dataset)) ⊎ HasEntry name dataset rest

find-add_dataset :
    (item : ResolvedDatasetConfiguration) (m : ResolvedStorageConfiguration) (name : Bytes)
    → find name (add_dataset item m) ≡ (elim (find name m) [
      | some r ↦ some r
      | none ↦ if item.name == name then some item else none
    ])
find-add_dataset item m name =
    ground (arith, find-put item.name name item m, bytes_eq_iff item.name name)

module _ (common : CommonConfiguration) (defaults : DatasetTimingConfiguration) where
  -- The error of the loop: the name of a data set, and what is wrong with it.
  abbrev pub Fails :
      Table Bytes DatasetConfiguration
      → Option (Bytes × Problem) × ResolvedStorageConfiguration
      → Type 0
  Fails datasets (error, m) =
      (m ≡ [])
      × ((name : Bytes) × (d : DatasetConfiguration) × (p : Problem) × (error ≡ some (name, p))
          × HasEntry name d datasets
          × Explains common defaults d p)

  -- What the loop has for a name: what it began with, or the data set of the configuration.
  abbrev Resolves :
      Bytes
      → Table Bytes DatasetConfiguration
      → Option ResolvedDatasetConfiguration
      → Option ResolvedDatasetConfiguration
      → Type 0
  Resolves name datasets (some r) after = after ≡ some r
  Resolves name datasets none after =
      ((find name datasets ≡ none) × (after ≡ none))
      ⊎ ((d : DatasetConfiguration) × (r : ResolvedDatasetConfiguration) × (find name datasets
            ≡ some d)
          × (after ≡ some r)
          × IsUsable common defaults name d r)

  resolve_each-Fails :
      (datasets : Table Bytes DatasetConfiguration) (m : ResolvedStorageConfiguration)
      → Fails datasets (resolve_each common defaults datasets m)
        ⊎ ((resolve_each common defaults datasets m).0 ≡ none)
  unfolding resolve_each
  resolve_each-Fails [] m = inr refl
  resolve_each-Fails ((first, d) ∷ rest) m =
      elim (Checked-cases (check_dataset common defaults first d)) [
        | inl (p, h) ↦
            rw (resolve_each, h)
              (inl (
                refl,
                (
                  first,
                  d,
                  p,
                  refl,
                  inl (refl, refl),
                  check_dataset-Explains common defaults first d p h,
                ),
              ))
        | inr (item, h) ↦
            rw (resolve_each, h)
              (elim (resolve_each-Fails rest (add_dataset item m)) [
                | inl (empty, (name, d', p, error, listed, why)) ↦
                    inl (empty, (name, d', p, error, inr listed, why))
                | inr ok ↦ inr ok
              ])
      ]

  Resolves-next :
      (name first : Bytes) (d : DatasetConfiguration) (item : ResolvedDatasetConfiguration)
      (rest : Table Bytes DatasetConfiguration) (m : ResolvedStorageConfiguration)
      (after : Option ResolvedDatasetConfiguration)
      → IsUsable common defaults first d item
      → Resolves name rest (find name (add_dataset item m)) after
      → Resolves name ((first, d) ∷ rest) (find name m) after
  unfolding find
  Resolves-next name first d item rest m after usable ih = elim (Option-cases (find name m)) [
    | inr (r, t) ↦
        let kept : find name (add_dataset item m) ≡ some r =
          ground (arith, find-add_dataset item m name) in
        rw t (subst (λ o. Resolves name rest o after) kept ih)
    | inl t ↦ elim (Bool-cases (first == name)) [
      | inl u ↦
          let same : first ≡ name = (bytes_eq_iff first name).0 u in
          let added : find name (add_dataset item m) ≡ some item =
            ground (arith, find-add_dataset item m name, usable.named) in
          let first_found : find name ((first, d) ∷ rest) ≡ some d = ground arith in
          rw t (
            inr (
              d,
              item,
              first_found,
              subst (λ o. Resolves name rest o after) added ih,
              subst (λ n. IsUsable common defaults n d item) same usable,
            ))
      | inr u ↦
          let passed : find name (add_dataset item m) ≡ none =
            ground (arith, find-add_dataset item m name, usable.named) in
          let later : find name ((first, d) ∷ rest) ≡ find name rest = ground arith in
          rw t (elim (subst (λ o. Resolves name rest o after) passed ih) [
            | inl (no_data, no_result) ↦ inl (later ∙ no_data, no_result)
            | inr (d', r, found, result, good) ↦ inr (d', r, later ∙ found, result, good)
          ])
    ]
  ]

  resolve_each-Resolves :
      (name : Bytes) (datasets : Table Bytes DatasetConfiguration)
      (m : ResolvedStorageConfiguration)
      → (resolve_each common defaults datasets m).0 ≡ none
      → Resolves name datasets (find name m) (find name (resolve_each common defaults datasets m).1)
  unfolding resolve_each find
  resolve_each-Resolves name [] m ok = elim (Option-cases (find name m)) [
    | inl t ↦ rw t (inl (refl, refl))
    | inr (r, t) ↦ rw t refl
  ]
  resolve_each-Resolves name ((first, d) ∷ rest) m ok =
      elim (Checked-cases (check_dataset common defaults first d)) [
        | inl (p, h) ↦ ground arith
        | inr (item, h) ↦
            let next = resolve_each common defaults rest (add_dataset item m) in
            let same : resolve_each common defaults ((first, d) ∷ rest) m ≡ next =
              rw (resolve_each, h) refl in
            subst (λ q. Resolves name ((first, d) ∷ rest) (find name m) (find name q.1)) (sym same)
              (Resolves-next name first d item rest m (find name next.1)
                (check_dataset-IsUsable common defaults first d item h)
                (resolve_each-Resolves name rest (add_dataset item m)
                  (sym (ap (λ q. q.0) same) ∙ ok)))
      ]

module _ (common : CommonConfiguration) where
  -- A configuration is resolved, or it is not. If it is not, there are no data sets, and the error names
  -- one of the configuration with what is wrong with it. If it is, a name that the configuration does not
  -- have is not there, and a name that it has is there, resolved as it was configured: with the profiles
  -- that it names, with a safe table prefix, with the prefix of the Redis profile before its own, which
  -- is not empty, and with its own times, or the default ones where they are 0, none of them 0.
  pub resolve_storage_configuration_lem :
      (storage : StorageConfiguration) (name : Bytes)
      → let (error, m) = resolve_storage_configuration common storage in
        Fails common storage.defaults storage.datasets (error, m)
        ⊎ ((error ≡ none)
            × (((find name storage.datasets ≡ none) × (find name m ≡ none))
                ⊎ ((d : DatasetConfiguration) × (r : ResolvedDatasetConfiguration) × (find name
                        storage.datasets
                      ≡ some d)
                    × (find name m ≡ some r)
                    × IsUsable common storage.defaults name d r)))
  unfolding resolve_storage_configuration find
  resolve_storage_configuration_lem storage name =
      elim (resolve_each-Fails common storage.defaults storage.datasets []) [
        | inl failed ↦ inl failed
        | inr ok ↦
            inr (ok, resolve_each-Resolves common storage.defaults name storage.datasets [] ok)
      ]
