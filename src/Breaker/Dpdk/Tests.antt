-- ===== src/Breaker/Dpdk/Tests.antt =====
-- A breaker that failed once and then succeeded.
use aws_multi_eni_controller.Prelude.{true, false}
use aws_multi_eni_controller.Breaker.Dpdk.{
  DpdkBreaker, default_dpdk_config, new_dpdk_breaker, record_dpdk_result,
}
use aws_multi_eni_controller.Breaker.Dpdk.Reached.{
  records, Reached, here, next, IsBounded, Reached-IsBounded,
}

abbrev start : DpdkBreaker
start = new_dpdk_breaker default_dpdk_config

abbrev later : DpdkBreaker
later = record_dpdk_result 9 true (record_dpdk_result 5 false start)

two_calls : Reached (new_dpdk_breaker default_dpdk_config) later
two_calls =
    next (next here (records 5 false start)) (records 9 true (record_dpdk_result 5 false start))

Reached-IsBounded_example : IsBounded later
Reached-IsBounded_example = Reached-IsBounded default_dpdk_config later two_calls
