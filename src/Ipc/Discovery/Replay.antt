-- ===== src/Ipc/Discovery/Replay.antt =====
-- What the membership events mean to the one who reads them: applied in their order to the view
-- that was before, they give the view that is now.
use some_server.Base.{
  ℕ, ◌≡◌, inl, inr, refl, sym, ap, ◌∙◌, subst, false, not, ◌&&◌, none, some, List, [], ◌∷◌, ◌++◌,
  arith, if◌then◌else◌, ◌==◌, Eq_ℕ, Eq_String, Eq_Bytes, Bool-cases, Option-cases, nat_eq_iff,
}
use some_server.Base.Table.{
  find, put, erase, contains, AllEntries, Distinct, find-put, find-put_same, find-erase,
}
use some_server.Ipc.Types.{ProcessDescriptor}
use some_server.Ipc.Discovery.{
  MembershipEventType, MembershipEvent, added, updated, removed, Processes, process_key,
}
use some_server.Ipc.Discovery.Diff.{differs, changes, removals, queue_diff_events, differs-eq}

abbrev pub apply_as : MembershipEventType → ProcessDescriptor → Processes → Processes
apply_as removed p m = erase (process_key p.process.process_id) m
apply_as added p m = put (process_key p.process.process_id) p m
apply_as updated p m = put (process_key p.process.process_id) p m

abbrev pub apply_event : Processes → MembershipEvent → Processes
apply_event m e = apply_as e.type e.process m

abbrev pub replay : Processes → List MembershipEvent → Processes
replay m [] = m
replay m (e ∷ es) = replay (apply_event m e) es

-- A descriptor stands under its own key.
abbrev pub Keyed : ℕ → ProcessDescriptor → Type 0
Keyed k p = k ≡ process_key p.process.process_id

abbrev pub IsView : Processes → Type 0
IsView m = AllEntries Keyed m × Distinct m

pub replay-append :
    (m : Processes) (es fs : List MembershipEvent) → replay m (es ++ fs) ≡ replay (replay m es) fs
replay-append m [] fs = refl
replay-append m (e ∷ es) fs = replay-append (apply_event m e) es fs

-- What one entry of the current view does to a reader.
change_step :
    (k : ℕ) (p : ProcessDescriptor) (previous current m : Processes)
    → k ≡ process_key p.process.process_id
    → (t : Processes) × (replay m (changes previous ((k, p) ∷ current))
        ≡ replay t (changes previous current))
      × (find k m ≡ find k previous → find k t ≡ some p)
      × ((j : ℕ) → (k == j) ≡ false → find j t ≡ find j m)
unfolding changes
change_step k p previous current m keyed = elim (Option-cases (find k previous)) [
  | inl t ↦ (
    put k p m,
    rw (t, changes) (ap (λ x. replay (put x p m) (changes previous current)) (sym keyed)),
    λ _. find-put_same k p m,
    λ j other. ground (arith, find-put k j p m),
  )
  | inr (q, t) ↦ elim (Bool-cases (differs q p)) [
    | inl d ↦ (
      put k p m,
      rw (changes, t, d) (ap (λ x. replay (put x p m) (changes previous current)) (sym keyed)),
      λ _. find-put_same k p m,
      λ j other. ground (arith, find-put k j p m),
    )
    | inr d ↦ (
      m,
      rw (changes, t, d) refl,
      λ before. before ∙ t ∙ ap some (differs-eq q p d),
      λ j other. refl,
    )
  ]
]

changes_others :
    (j : ℕ) (previous current m : Processes)
    → AllEntries Keyed current
    → find j current ≡ none
    → find j (replay m (changes previous current)) ≡ find j m
unfolding changes find
changes_others j previous [] m keyed absent = refl
changes_others j previous ((k, p) ∷ current) m keyed absent =
    let (t, eq, same, others) = change_step k p previous current m keyed.0 in
    ap (find j) eq
    ∙ changes_others j previous current t keyed.1 (ground arith)
    ∙ others j (ground arith)

changes_present :
    (j : ℕ) (r : ProcessDescriptor) (previous current m : Processes)
    → IsView current
    → find j current ≡ some r
    → find j m ≡ find j previous
    → find j (replay m (changes previous current)) ≡ some r
unfolding changes find
changes_present j r previous [] m view h before = cc
changes_present j r previous ((k, p) ∷ current) m view h before =
    let (t, eq, same, others) = change_step k p previous current m view.0.0 in
    elim (Bool-cases (k == j)) [
      | inl e ↦
          let k≡j : k ≡ j = (nat_eq_iff k j).0 e in
          ap (find j) eq
          ∙ changes_others j previous current t view.0.1
              (subst (λ x. find x current ≡ none) k≡j view.1.0)
          ∙ subst (λ x. find x t ≡ some p) k≡j
              (same (subst (λ x. find x m ≡ find x previous) (sym k≡j) before))
          ∙ ground arith
      | inr n ↦
          ap (find j) eq
          ∙ changes_present j r previous current t (view.0.1, view.1.1) (ground arith)
              (others j n ∙ before)
    ]

removals_lem :
    (j : ℕ) (current previous m : Processes)
    → AllEntries Keyed previous
    → find j (replay m (removals current previous))
      ≡ (if contains j previous && not (contains j current) then none else find j m)
unfolding removals find
removals_lem j current [] m keyed = refl
removals_lem j current ((k, p) ∷ previous) m keyed = elim (Bool-cases (contains k current)) [
  | inl t ↦ rw t (ground (arith, removals_lem j current previous m keyed.1, nat_eq_iff k j))
  | inr t ↦
      rw (removals, t)
        (ground (
          arith,
          removals_lem j current previous (erase (process_key p.process.process_id) m) keyed.1,
          find-erase (process_key p.process.process_id) j m,
          nat_eq_iff k j,
        ))
]

-- A reader that applies the events between two views to the first has the second, for every key.
pub replay-queue_diff_events :
    (j : ℕ) (previous current : Processes)
    → IsView previous
    → IsView current
    → find j (replay previous (queue_diff_events previous current [])) ≡ find j current
unfolding queue_diff_events
replay-queue_diff_events j previous current before now =
    ap (find j) (replay-append previous (changes previous current) (removals current previous))
    ∙ removals_lem j current previous (replay previous (changes previous current)) before.0
    ∙ elim (Option-cases (find j current)) [
      | inl t ↦ ground (arith, changes_others j previous current previous now.0 t)
      | inr (r, t) ↦ ground (arith, changes_present j r previous current previous now t refl)
    ]
