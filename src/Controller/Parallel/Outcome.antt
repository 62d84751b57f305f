-- ===== src/Controller/Parallel/Outcome.antt =====
-- What the result of the pool says of the attachments.
use aws_multi_eni_controller.Prelude.{
  ℕ, zero, suc, ◌+◌, ◌<◌, ◌≡◌, refl, Bool, true, false, List, [], ◌∷◌, ◌++◌, Option, none, some,
  ◌⊎◌, inl, inr, arith, sym, false≢true, length, All, All-append, subst,
}
use mathlib.Core.Option.{some-injective}
use aws_multi_eni_controller.Prelude.State.{Call}
use aws_multi_eni_controller.Controller.Parallel.{
  Pool, Choice, take, finish, drop, leave, pick, finish_one, take_one, leave_one, busy_step,
  pool_step, run_pool, pool_measure, collect_results, start_pool, run_workers,
}
use aws_multi_eni_controller.Controller.Parallel.Runs.{run_pool-stops, run_pool_inv}

-- The attachment is on the list.
abbrev pub In : {A : Type 0} → A → List A → Type 0
In a [] = ⊥
In a (b ∷ bs) = (a ≡ b) ⊎ In a bs

In-pick :
    {A : Type 0} (a : A) (i : ℕ) (b : A) (bs : List A)
    → In a (b ∷ bs)
    → (a ≡ (pick i b bs).0) ⊎ In a (pick i b bs).1
unfolding pick
In-pick a i b [] h = h
In-pick a zero b (x ∷ xs) h = h
In-pick a (suc i) b (x ∷ xs) (inl e) = inr (inl e)
In-pick a (suc i) b (x ∷ xs) (inr h) = elim (In-pick a i x xs h) [
  | inl e ↦ inl e
  | inr k ↦ inr (inr k)
]

-- The attachments that have a result.
abbrev reported : {A : Type 0} → List (A × Bool) → List A
reported [] = []
reported ((a, b) ∷ rest) = a ∷ reported rest

In-reported :
    {A : Type 0} (a : A) (rs : List (A × Bool)) (c : A) (b : Bool)
    → (In a (reported rs)) ⊎ (a ≡ c)
    → In a (reported (rs ++ (c, b) ∷ []))
In-reported a [] c b (inl h) = absurd h
In-reported a [] c b (inr h) = inl h
In-reported a ((x, y) ∷ rs) c b (inl (inl e)) = inl e
In-reported a ((x, y) ∷ rs) c b (inl (inr h)) = inr (In-reported a rs c b (inl h))
In-reported a ((x, y) ∷ rs) c b (inr h) = inr (In-reported a rs c b (inr h))

module _ {A S : Type 0} (cleanup : A → Call S Bool) (is_cancelled : S → Bool)
    (running : (s : S) → is_cancelled s ≡ false) (Good : A → S → Type 0)
    (achieves : (a : A) (s : S) → (cleanup a s).0 ≡ true → Good a (cleanup a s).1)
    (keeps : (a b : A) (s : S) → Good a s → Good a (cleanup b s).1) where
  -- Where an attachment is.
  abbrev Placed : A → List A → List A → List A → Type 0
  Placed a pending busy done_ones = In a pending ⊎ (In a busy ⊎ In a done_ones)

  abbrev Achieved : S → List (A × Bool) → Type 0
  Achieved s = All (λ r. r.1 ≡ true → Good r.0 s)

  record Sound (attachments : List A) (p : Pool A S) : Type 0 where
    placed : (a : A) → In a attachments → Placed a p.pending p.busy (reported p.results)
    achieved : Achieved p.world p.results
    crewed : (p.pending ≡ []) ⊎ (0 < p.idle + length p.busy)

  Achieved-cleanup :
      (b : A) (s : S) (rs : List (A × Bool)) → Achieved s rs → Achieved (cleanup b s).1 rs
  Achieved-cleanup b s [] h = tt
  Achieved-cleanup b s ((a, x) ∷ rs) h = ((λ e. keeps a b s (h.0 e)), Achieved-cleanup b s rs h.1)

  Placed-finish :
      (a : A) (pending : List A) (i : ℕ) (b : A) (rest : List A) (rs : List (A × Bool)) (x : Bool)
      → Placed a pending (b ∷ rest) (reported rs)
      → Placed a pending (pick i b rest).1 (reported (rs ++ ((pick i b rest).0, x) ∷ []))
  Placed-finish a pending i b rest rs x (inl h) = inl h
  Placed-finish a pending i b rest rs x (inr (inr h)) =
      inr (inr (In-reported a rs (pick i b rest).0 x (inl h)))
  Placed-finish a pending i b rest rs x (inr (inl h)) = elim (In-pick a i b rest h) [
    | inl e ↦ inr (inr (In-reported a rs (pick i b rest).0 x (inr e)))
    | inr k ↦ inr (inl k)
  ]

  finish-Sound :
      (attachments : List A) (i : ℕ) (busy : List A) (p q : Pool A S)
      → p.busy ≡ busy
      → busy_step cleanup is_cancelled (finish_one cleanup is_cancelled) i busy p ≡ some q
      → Sound attachments p
      → Sound attachments q
  unfolding busy_step finish_one
  finish-Sound attachments i [] p q e h v = cc
  finish-Sound attachments i (b ∷ rest) p q e h v =
      subst (Sound attachments) (some-injective _ _ h) after
    where
      chosen : A × List A
      chosen = pick i b rest

      after : Sound attachments (finish_one cleanup is_cancelled i b rest p)
      after = record {
        placed = λ a m.
            Placed-finish a p.pending i b rest p.results (cleanup chosen.0 p.world).0
              (subst (λ l. Placed a p.pending l (reported p.results)) e (v.placed a m));
        achieved =
            All-append _ p.results _ (Achieved-cleanup chosen.0 p.world p.results v.achieved)
              (achieves chosen.0 p.world, tt);
        crewed = inr (omega arith);
      }

  Placed-take :
      (a b : A) (rest busy done_ones : List A)
      → Placed a (b ∷ rest) busy done_ones
      → Placed a rest (b ∷ busy) done_ones
  Placed-take a b rest busy d (inl (inl e)) = inr (inl (inl e))
  Placed-take a b rest busy d (inl (inr h)) = inl h
  Placed-take a b rest busy d (inr (inl h)) = inr (inl (inr h))
  Placed-take a b rest busy d (inr (inr h)) = inr (inr h)

  take-Sound :
      (attachments pending : List A) (idle : ℕ) (p q : Pool A S)
      → p.pending ≡ pending
      → take_one cleanup is_cancelled pending idle p ≡ some q
      → Sound attachments p
      → Sound attachments q
  unfolding take_one
  take-Sound attachments [] zero p q e h v = cc
  take-Sound attachments [] (suc n) p q e h v = cc
  take-Sound attachments (b ∷ rest) zero p q e h v = cc
  take-Sound attachments (b ∷ rest) (suc n) p q e h v =
      subst (Sound attachments) (some-injective _ _ h) (record {
        placed = λ a m.
            Placed-take a b rest p.busy (reported p.results)
              (subst (λ l. Placed a l p.busy (reported p.results)) e (v.placed a m));
        achieved = v.achieved;
        crewed = inr (omega arith);
      })

  leave-Sound :
      (attachments pending : List A) (idle : ℕ) (p q : Pool A S)
      → p.pending ≡ pending
      → leave_one cleanup is_cancelled pending idle p ≡ some q
      → Sound attachments p
      → Sound attachments q
  unfolding leave_one
  leave-Sound attachments [] zero p q e h v = cc
  leave-Sound attachments [] (suc n) p q e h v =
      subst (Sound attachments) (some-injective _ _ h)
        (record { placed = v.placed; achieved = v.achieved; crewed = inl e })
  leave-Sound attachments (b ∷ rest) zero p q e h v = cc
  leave-Sound attachments (b ∷ rest) (suc n) p q e h v = ground (arith, running p.world)

  pool_step-Sound :
      (attachments : List A) (x : Choice) (p q : Pool A S)
      → pool_step cleanup is_cancelled x p ≡ some q
      → Sound attachments p
      → Sound attachments q
  unfolding pool_step
  pool_step-Sound attachments take p q h v = take-Sound attachments p.pending p.idle p q refl h v
  pool_step-Sound attachments (finish i) p q h v = finish-Sound attachments i p.busy p q refl h v
  pool_step-Sound attachments (drop i) p q h v = ground (arith, running p.world)
  pool_step-Sound attachments leave p q h v = leave-Sound attachments p.pending p.idle p q refl h v

  start-Sound :
      (workers : ℕ) (attachments : List A) (s : S)
      → 0 < workers
      → Sound attachments (start_pool cleanup is_cancelled workers attachments s)
  unfolding start_pool
  start-Sound workers attachments s h = record {
    placed = λ a m. inl m;
    achieved = tt;
    crewed = inr (omega arith);
  }

  Good_of_result :
      (s : S) (rs : List (A × Bool)) (a : A)
      → collect_results cleanup is_cancelled rs ≡ true
      → Achieved s rs
      → In a (reported rs)
      → Good a s
  unfolding collect_results
  Good_of_result s [] a c h m = absurd m
  Good_of_result s ((b, true) ∷ rs) a c h (inl e) = subst (λ x. Good x s) (sym e) (h.0 refl)
  Good_of_result s ((b, true) ∷ rs) a c h (inr m) = Good_of_result s rs a c h.1 m
  Good_of_result s ((b, false) ∷ rs) a c h m = absurd (false≢true c)

  pending-nil :
      (p : Pool A S)
      → (p.busy ≡ []) × (p.idle ≡ 0)
      → (p.pending ≡ []) ⊎ (0 < p.idle + length p.busy)
      → p.pending ≡ []
  pending-nil p stopped (inl e) = e
  pending-nil p stopped (inr h) = absurd (ground arith)

  Sound-Good :
      (attachments : List A) (p : Pool A S) (a : A)
      → Sound attachments p
      → (p.busy ≡ []) × (p.idle ≡ 0)
      → collect_results cleanup is_cancelled p.results ≡ true
      → In a attachments
      → Good a p.world
  Sound-Good attachments p a v stopped c m = elim (v.placed a m) [
    | inl h ↦ absurd (subst (In a) (pending-nil p stopped v.crewed) h)
    | inr (inl h) ↦ absurd (subst (In a) stopped.0 h)
    | inr (inr h) ↦ Good_of_result p.world p.results a c v.achieved h
  ]

  -- With the context never done and at least one worker: whatever the scheduler does, if the
  -- parallel cleanup reports success then each attachment's cleanup has succeeded, and what that
  -- achieves holds at the end. (The other cleanups keep what one has achieved.)
  pub run_workers-Good :
      (choose : Pool A S → Choice) (sent : Option (List A)) (workers : ℕ) (attachments : List A)
      (s : S) (a : A)
      → 0 < workers
      → (run_workers cleanup is_cancelled choose sent workers attachments s).0 ≡ true
      → In a attachments
      → Good a (run_workers cleanup is_cancelled choose sent workers attachments s).1
  unfolding run_workers
  run_workers-Good choose (some sent) workers attachments s a h c m = absurd (false≢true c)
  run_workers-Good choose none workers attachments s a h c m =
      Sound-Good attachments
        (run_pool cleanup is_cancelled (pool_measure cleanup is_cancelled p) choose p) a
        (run_pool_inv cleanup is_cancelled (Sound attachments) (pool_step-Sound attachments) choose
          (pool_measure cleanup is_cancelled p) p (start-Sound workers attachments s h))
        (run_pool-stops cleanup is_cancelled choose (pool_measure cleanup is_cancelled p) p
          (omega arith))
        c m
    where
      p : Pool A S
      p = start_pool cleanup is_cancelled workers attachments s
