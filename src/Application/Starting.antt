-- ===== src/Application/Starting.antt =====
-- src/framework/application/base.h: what the start of the services ends in.
use some_server.Base.{
  ◌≡◌, ◌⊎◌, inl, inr, refl, sym, ap, ◌∙◌, subst, Option, none, some, List, [], ◌∷◌, ◌++◌, String,
  arith, Eq_ℕ, Eq_String, Eq_Bytes, Option-cases,
}
use some_server.Base.{length}
use some_server.Application.{
  Service, Stage, Services, Hooks, Application, run_each, run_all, reverse, rollback, bring_up,
  after_pass, start,
}
use some_server.Application.Batches.{run_forward_batches_lem}

append_nil : (ss : List Service) → ss ++ [] ≡ ss
append_nil [] = refl
append_nil (s ∷ ss) = ap (λ z. s ∷ z) (append_nil ss)

append_assoc : (a : List Service) (s : Service) (b : List Service) → (a ++ s ∷ []) ++ b ≡ a ++ s ∷ b
append_assoc [] s b = refl
append_assoc (t ∷ a) s b = ap (λ z. t ∷ z) (append_assoc a s b)

module _ {W : Type 0} (operation : Stage W) where
  -- A pass through the services reaches the end, or stops at a service that throws.
  abbrev Passes : List Service → List Service → W → Type 0
  Passes ss done w =
      (((run_each operation ss done w).0 ≡ none) × ((run_each operation ss done w).1 ≡ done ++ ss))
      ⊎ ((p : List Service) × (s : Service) × (rest : List Service) × (e : String) × (ss
            ≡ p ++ s ∷ rest)
          × ((run_each operation p done w).0 ≡ none)
          × ((operation s (run_each operation p done w).2).0 ≡ some e)
          × (run_each operation ss done w
              ≡ (some e, done ++ p, (operation s (run_each operation p done w).2).1)))

  run_each-Passes : (ss done : List Service) (w : W) → Passes ss done w
  unfolding run_each
  run_each-Passes [] done w = inl (refl, sym (append_nil done))
  run_each-Passes (s ∷ ss) done w = elim (Option-cases (operation s w).0) [
    | inr (e, t) ↦ inr (
      [],
      s,
      ss,
      e,
      refl,
      refl,
      t,
      rw (run_each, t) (λ i. (some e, sym (append_nil done) i, (operation s w).1)),
    )
    | inl t ↦ elim (run_each-Passes ss (done ++ s ∷ []) (operation s w).1) [
      | inl (a, b) ↦ inl (rw (run_each, t) a, rw (run_each, t) (b ∙ append_assoc done s ss))
      | inr (p, u, rest, e, split, before, throws, r) ↦ inr (
        s ∷ p,
        u,
        rest,
        e,
        ap (λ z. s ∷ z) split,
        rw (run_each, t) before,
        rw (run_each, t) throws,
        rw (run_each, t)
            (r ∙ λ i. (
              some e,
              append_assoc done s p i,
              (operation u (run_each operation p (done ++ s ∷ []) (operation s w).1).2).1,
            )),
      )
    ]
  ]

-- The list after a rollback, and its error beside the first one.
abbrev pub left : Option String → List Service → List Service
left none p = []
left (some f) p = p

abbrev pub reported : Option String → String → Option String
reported none e = some e
reported (some f) e = some f

module _ {W : Type 0} (operation undo : Stage W) where
  -- What a pass with its rollback ends in. Either each service has succeeded, and the list has them
  -- all in their order; or those before a service have succeeded, it has thrown, and they are
  -- undone from the last to the first, whatever they throw. Then the list is empty if none of them
  -- threw; else it still has them, and the error is the one of the rollback.
  abbrev pub BringsUp : List Service → W → Option String × List Service × W → Type 0
  BringsUp services w (error, list, w') =
      ((error ≡ none)
        × (list ≡ services)
        × ((run_each operation services [] w).0 ≡ none)
        × (w' ≡ (run_each operation services [] w).2))
      ⊎ ((p : List Service) × (s : Service) × (rest : List Service) × (e : String) × (services
            ≡ p ++ s ∷ rest)
          × ((run_each operation p [] w).0 ≡ none)
          × ((operation s (run_each operation p [] w).2).0 ≡ some e)
          × (let undone =
                run_all undo (reverse p) none (operation s (run_each operation p [] w).2).1 in
              (error ≡ reported undone.0 e) × (list ≡ left undone.0 p) × (w' ≡ undone.1)))

  undone_lem :
      (e : String) (p : List Service) (w : W)
      → let undone = run_all undo (reverse p) none w in
        let r = after_pass undo (some e, p, w) in
        (r.0 ≡ reported undone.0 e) × (r.1 ≡ left undone.0 p) × (r.2 ≡ undone.1)
  unfolding rollback
  undone_lem e p w = elim (Option-cases (run_all undo (reverse p) none w).0) [
    | inl t ↦ rw (after_pass, rollback, t) (refl, refl, refl)
    | inr (f, t) ↦ rw (after_pass, rollback, t) (refl, refl, refl)
  ]

  bring_up_lem :
      (services : List Service) (w : W) → BringsUp services w (bring_up operation undo services w)
  unfolding bring_up rollback
  bring_up_lem services w =
      let same = run_forward_batches_lem operation (length services) services [] w (omega arith) in
      elim (run_each-Passes operation services [] w) [
        | inl (a, b) ↦
            let r = run_each operation services [] w in
            subst (BringsUp services w) (sym (ap (after_pass undo) (same ∙ λ i. (a i, r.1, r.2))))
              (inl (refl, b, a, refl))
        | inr (p, s, rest, e, split, before, throws, r) ↦
            let w1 = (operation s (run_each operation p [] w).2).1 in
            subst (BringsUp services w) (sym (ap (after_pass undo) (same ∙ r)))
              (inr (p, s, rest, e, split, before, throws, undone_lem e p w1))
      ]

-- Where `OnStart` does not throw, `Start` ends with each service started, in the order of the
-- services, and `mStartedServices` has them all; or a service has thrown, and those started before
-- it are stopped from the last to the first, whatever they throw. Then `mStartedServices` is empty
-- if none of them threw; else it still has them, and the error is that of the rollback.
pub start_lem :
    {W : Type 0} (calls : Services W) (hooks : Hooks W) (a : Application) (w : W)
    → (hooks.on_start w).0 ≡ none
    → let r = start calls hooks a w in
      BringsUp calls.start_service calls.stop_service a.services_in_order
        (hooks.on_start w).1
        (r.0, r.1.started_services, r.2)
unfolding start
start_lem calls hooks a w h =
    rw (start, h)
      (bring_up_lem calls.start_service calls.stop_service a.services_in_order (hooks.on_start w).1)
