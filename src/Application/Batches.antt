-- ===== src/Application/Batches.antt =====
-- src/framework/application/base.h: the loops over batches take the services in their order.
use some_server.Base.{
  ℕ, zero, suc, ◌≤◌, ◌≡◌, inl, inr, refl, sym, ap, ◌∙◌, Option, none, some, List, [], ◌∷◌, ◌++◌,
  String, arith, nat_eq, Eq_ℕ, Eq_String, Eq_Bytes, Bool-cases, Option-cases,
}
use some_server.Base.{length}
use some_server.Application.{
  Service, Stage, span_batch, run_each, run_all, run_forward_batches, run_reverse_batches,
  first_error,
}

span_batch_append : (b : ℕ) (ss : List Service) → (span_batch b ss).0 ++ (span_batch b ss).1 ≡ ss
unfolding span_batch
span_batch_append b [] = refl
span_batch_append b (s ∷ ss) = elim (Bool-cases (nat_eq s.batch b)) [
  | inl t ↦ rw t (ap (λ z. s ∷ z) (span_batch_append b ss))
  | inr t ↦ rw t refl
]

span_batch_shrinks : (b : ℕ) (ss : List Service) → length (span_batch b ss).1 ≤ length ss
unfolding span_batch
span_batch_shrinks b [] = ground arith
span_batch_shrinks b (s ∷ ss) = ground (arith, span_batch_shrinks b ss)

-- What is behind the first batch needs less fuel.
fits :
    (fuel : ℕ) (s : Service) (ss : List Service)
    → length (s ∷ ss) ≤ suc fuel
    → length (span_batch s.batch (s ∷ ss)).1 ≤ fuel
unfolding span_batch
fits fuel s ss h = ground (arith, span_batch_shrinks s.batch ss)

module _ {W : Type 0} (operation : Stage W) where
  abbrev go_on : Option String × List Service × W → List Service → Option String × List Service × W
  go_on (error, done, w) rest = elim error [
    | some e ↦ (some e, done, w)
    | none ↦ run_each operation rest done w
  ]

  run_each_append :
      (a b done : List Service) (w : W)
      → run_each operation (a ++ b) done w ≡ go_on (run_each operation a done w) b
  unfolding run_each
  run_each_append [] b done w = refl
  run_each_append (s ∷ a) b done w = elim (Option-cases (operation s w).0) [
    | inl t ↦ rw (run_each, t) (run_each_append a b (done ++ s ∷ []) (operation s w).1)
    | inr (e, t) ↦ rw (run_each, t) refl
  ]

  pub run_forward_batches_lem :
      (fuel : ℕ) (ss done : List Service) (w : W)
      → length ss ≤ fuel
      → run_forward_batches fuel operation ss done w ≡ run_each operation ss done w
  unfolding run_forward_batches run_each
  run_forward_batches_lem zero [] done w h = refl
  run_forward_batches_lem zero (s ∷ ss) done w h = absurd (omega (arith, h))
  run_forward_batches_lem (suc fuel) [] done w h = refl
  run_forward_batches_lem (suc fuel) (s ∷ ss) done w h =
      let x = span_batch s.batch (s ∷ ss) in
      let r = run_each operation x.0 done w in
      let whole : run_each operation (s ∷ ss) done w ≡ go_on r x.1 =
        ap (λ z. run_each operation z done w) (sym (span_batch_append s.batch (s ∷ ss)))
        ∙ run_each_append x.0 x.1 done w in
      let step : run_forward_batches (suc fuel) operation (s ∷ ss) done w ≡ go_on r x.1 =
        elim (Option-cases r.0) [
          | inr (e, t) ↦ rw (run_forward_batches, go_on, t) refl
          | inl t ↦
              rw (run_forward_batches, go_on, t)
                (run_forward_batches_lem fuel x.1 r.1 r.2 (fits fuel s ss h))
        ] in
      step ∙ sym whole

  run_all_append :
      (a b : List Service) (error : Option String) (w : W)
      → run_all operation (a ++ b) error w
        ≡ run_all operation b (run_all operation a error w).0 (run_all operation a error w).1
  unfolding run_all
  run_all_append [] b error w = refl
  run_all_append (s ∷ a) b error w =
      run_all_append a b (first_error error (operation s w).0) (operation s w).1

  pub run_reverse_batches_lem :
      (fuel : ℕ) (ss : List Service) (error : Option String) (w : W)
      → length ss ≤ fuel
      → run_reverse_batches fuel operation ss error w ≡ run_all operation ss error w
  unfolding run_reverse_batches run_all
  run_reverse_batches_lem zero [] error w h = refl
  run_reverse_batches_lem zero (s ∷ ss) error w h = absurd (omega (arith, h))
  run_reverse_batches_lem (suc fuel) [] error w h = refl
  run_reverse_batches_lem (suc fuel) (s ∷ ss) error w h =
      let x = span_batch s.batch (s ∷ ss) in
      let r = run_all operation x.0 error w in
      run_reverse_batches_lem fuel x.1 r.0 r.1 (fits fuel s ss h)
      ∙ sym (run_all_append x.0 x.1 error w)
      ∙ ap (λ z. run_all operation z error w) (span_batch_append s.batch (s ∷ ss))
