-- ===== src/Controller/Coordination/Tests.antt =====
-- The lock manager with one lock: `op-1` has "eni-1" from time 10 to time 110.
use aws_multi_eni_controller.Prelude.{
  ℕ, String, true, [], ◌∷◌, Option, none, some, ◌≡◌, refl, ◌⊎◌, contains_string,
}
use aws_multi_eni_controller.Prelude.State.{Call}
use aws_multi_eni_controller.Prelude.Maps.{lookup}
use aws_multi_eni_controller.Controller.Coordination.{
  CoordinationManager, CoordinatedOperation, new_lock, release_all, complete_step, cleanup_step,
  execute_coordinated,
}
use aws_multi_eni_controller.Controller.Coordination.Execute.{
  NotOwned, execute_coordinated-NotOwned,
}
use aws_multi_eni_controller.Controller.Coordination.Exclusion.{
  Owned, execute_coordinated-excluded, execute_coordinated-Owned,
}

abbrev one_lock : CoordinationManager
one_lock = record {
  locks = ("eni-1", new_lock 10 none "eni-1" "eni-cleanup" "op-1" 100) ∷ [];
  dependencies = [];
}

-- The rest of the world is a clock.
abbrev at_20 : CoordinationManager × ℕ
at_20 = (one_lock, 20)

abbrev op_2 : CoordinatedOperation (CoordinationManager × ℕ)
op_2 = record {
  id = "op-2";
  operation_type = "eni-cleanup";
  resource_ids = "eni-1" ∷ "eni-2" ∷ [];
  timeout = 100;
  execute = λ s. (none, s);
}

abbrev clock : ℕ → ℕ
clock t = t

abbrev nobody : CoordinationManager × ℕ → CoordinationManager × ℕ
nobody s = s

execute_coordinated-NotOwned_example :
    NotOwned "op-2" "eni-2" (execute_coordinated clock none nobody op_2 at_20).1
unfolding lookup
execute_coordinated-NotOwned_example =
    execute_coordinated-NotOwned clock none nobody op_2 "eni-2" at_20 (λ t h. h) (λ t h. h) refl

execute_coordinated-excluded_example :
    execute_coordinated clock none nobody op_2 at_20
    ≡ (some "resource conflicts detected", nobody (cleanup_step clock none nobody at_20))
unfolding lookup
execute_coordinated-excluded_example =
    execute_coordinated-excluded clock none nobody op_2 "eni-1" at_20 refl (λ t h. h) (refl, refl)

execute_coordinated-Owned_example :
    ((t : CoordinationManager × ℕ) × ((r : String)
        → contains_string op_2.resource_ids r ≡ true
        → Owned op_2.id r t)
      × (execute_coordinated clock none nobody op_2 at_20 ≡ (
        (op_2.execute t).0,
        complete_step clock none nobody op_2.id
            (release_all clock none nobody op_2.id op_2.resource_ids (op_2.execute t).1),
      )))
    ⊎ ((e : String) × ((u : CoordinationManager × ℕ) × ((body : Call
              (CoordinationManager × ℕ)
              (Option String))
            → execute_coordinated clock none nobody (record op_2 { execute = body }) at_20
              ≡ (some e, u))))
execute_coordinated-Owned_example =
    execute_coordinated-Owned clock none nobody op_2 at_20 (λ r t h. h)
