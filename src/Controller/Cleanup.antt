-- ===== src/Controller/Cleanup.antt =====
-- Detaching and deleting one ENI in pkg/controller/nodeeni_controller.go: `cleanupENIAttachment` and
-- what it calls. Events and log lines are left out.
pub mod Laws
pub mod Effects
pub mod Deleted
mod Tests
use aws_multi_eni_controller.Prelude.{
  ℕ, String, Bool, true, false, ◌&&◌, ◌||◌, not, Option, none, some, if◌then◌else◌, str_eq,
  str_contains, is_some,
}
use aws_multi_eni_controller.Prelude.State.{Call, Result, ok, err, pure, ◌>>=◌}
use aws_multi_eni_controller.Types.{NodeEni, EniAttachment}
use aws_multi_eni_controller.Cluster.{
  Cluster, Config, NetworkInterface, InterfaceState, eni_not_found, attachment_not_found,
}
use aws_multi_eni_controller.Wait.{Verdict, done, again, fail, Exit, finished, failed, timed_out}

-- The three tests of the detach and wait loops.
pub is_rate_limit_error : String → Bool
is_rate_limit_error e =
    str_contains e "RequestLimitExceeded"
    || str_contains e "Throttling"
    || str_contains e "rate limit"

-- What the loops make of an answer: success, or an error that means it, ends the loop well; a rate
-- limit goes on; any other error ends the loop.
pub classify : String → Option String → Verdict String
unfolding is_rate_limit_error
classify gone_code none = done
classify gone_code (some e) =
    if str_contains e gone_code then done else if is_rate_limit_error e then again else fail e

abbrev pub succeeded : Exit String → Bool
succeeded finished = true
succeeded (failed e) = false
succeeded timed_out = false

-- The number of attempts in the loops (`Steps`).
abbrev pub cleanup_steps : ℕ
cleanup_steps = 5

-- `verifyDPDKUnbind` on the captured state.
pub verify_state : Result InterfaceState → Option String
verify_state (err e) = some "failed to capture state for verification"
verify_state (ok s) =
    if s.is_bound_to_dpdk
    then some "verification failed: interface is still bound to DPDK driver"
    else if str_eq s.current_driver "ena"
    then none
    else some "verification failed: interface is not bound to ena"

-- The answer of `checkENIExists` and its callers' reading of `DescribeENI`.
abbrev pub exists_of : Result (Option NetworkInterface) → Bool
exists_of (ok none) = false
exists_of (ok (some _)) = true
exists_of (err e) = not (str_contains e eni_not_found)

-- `eni.Attachment != nil && eni.Status != available`
abbrev pub still_attached : NetworkInterface → Bool
still_attached eni = is_some eni.attachment && not (str_eq eni.status "available")

-- An answer of `DeleteENI`: `nil`, or the ENI was gone already.
abbrev pub deleted_of : Option String → Bool
deleted_of none = true
deleted_of (some e) = str_contains e eni_not_found

module _ (c : Cluster) (config : Config) where
  open c use {
    World, backoff, describe_eni, detach_eni, wait_for_eni_detachment, delete_eni,
    capture_interface_state, atomic_dpdk_unbind, rollback_interface_state, sleep,
  }

  pub verify_dpdk_unbind : EniAttachment → Call World (Option String)
  unfolding verify_state
  verify_dpdk_unbind a = do s ← capture_interface_state a; pure (verify_state s)

  -- The two ends of `unbindInterfaceFromDPDK`, by the answer of the atomic unbind.
  after_unbind : EniAttachment → InterfaceState → Option String → Call World (Option String)
  after_unbind a s none = verify_dpdk_unbind a
  after_unbind a s (some e) = do
    r ← rollback_interface_state a s
    pure (
        some (
          if is_some r
          then "unbind failed and rollback failed"
          else "unbind failed but rollback succeeded"))

  unbind_captured : EniAttachment → Result InterfaceState → Call World (Option String)
  unbind_captured a (err e) = pure (some "failed to capture interface state")
  unbind_captured a (ok s) =
      if s.is_bound_to_dpdk then (do e ← atomic_dpdk_unbind a s; after_unbind a s e) else pure none

  pub unbind_interface_from_dpdk : EniAttachment → Call World (Option String)
  unfolding unbind_captured after_unbind
  unbind_interface_from_dpdk a = do s ← capture_interface_state a; unbind_captured a s

  -- Best effort: an error is only reported.
  unfoldable pub handle_dpdk_unbinding : NodeEni → EniAttachment → Call World (Unit {0})
  handle_dpdk_unbinding n a =
      if n.spec.enable_dpdk && a.dpdk_bound
      then (do _e ← unbind_interface_from_dpdk a; pure tt)
      else pure tt

  unfoldable pub check_eni_exists : EniAttachment → Call World Bool
  check_eni_exists a = do r ← describe_eni a.eni_id; pure (exists_of r)

  unfoldable pub detach_eni_with_retry : EniAttachment → Call World Bool
  unfolding classify
  detach_eni_with_retry a w =
      if str_eq a.attachment_id ""
      then (true, w)
      else (let r = backoff.run World String cleanup_steps detach_once w in (succeeded r.0, r.1))
    where
      detach_once : World → Verdict String × World
      detach_once v =
          let r = detach_eni a.attachment_id true v in (classify attachment_not_found r.0, r.1)

  unfoldable pub wait_for_eni_detachment_with_retry : EniAttachment → Call World Bool
  unfolding classify
  wait_for_eni_detachment_with_retry a w =
      if str_eq a.eni_id ""
      then (true, w)
      else (let r = backoff.run World String cleanup_steps wait_once w in (succeeded r.0, r.1))
    where
      wait_once : World → Verdict String × World
      wait_once v =
          let r = wait_for_eni_detachment a.eni_id config.detachment_timeout v in
          (classify eni_not_found r.0, r.1)

  delete_now : EniAttachment → Call World Bool
  delete_now a = do r ← delete_eni a.eni_id; pure (deleted_of r)

  -- The second look, after the pause.
  delete_after_pause : EniAttachment → Result (Option NetworkInterface) → Call World Bool
  delete_after_pause a (err e) = pure (str_contains e eni_not_found)
  delete_after_pause a (ok none) = pure true
  delete_after_pause a (ok (some eni)) = delete_now a

  delete_described : EniAttachment → Result (Option NetworkInterface) → Call World Bool
  delete_described a (err e) = pure (str_contains e eni_not_found)
  delete_described a (ok none) = pure true
  delete_described a (ok (some eni)) =
      if still_attached eni
      then (λ w.
          (describe_eni a.eni_id >>= delete_after_pause a) (sleep config.detachment_timeout w))
      else delete_now a

  unfoldable pub delete_eni_if_exists : EniAttachment → Call World Bool
  unfolding delete_described delete_after_pause delete_now
  delete_eni_if_exists a = describe_eni a.eni_id >>= delete_described a

  -- Steps 3 to 5: every step is made, whatever the one before it said.
  detach_and_delete : EniAttachment → Call World Bool
  detach_and_delete a = do
    detached ← detach_eni_with_retry a
    waited ← wait_for_eni_detachment_with_retry a
    deleted ← delete_eni_if_exists a
    pure (detached && waited && deleted)

  unfoldable pub cleanup_eni_attachment : NodeEni → EniAttachment → Call World Bool
  unfolding detach_and_delete
  cleanup_eni_attachment n a = do
    _u ← handle_dpdk_unbinding n a
    present ← check_eni_exists a
    if present then detach_and_delete a else pure true
