-- ===== src/Trafficlog/Bounds.antt =====
-- The connection counts of a backend as uint64.
use ezlb.Shared.{ℕ, ◌≡◌, ◌+◌, ◌<◌, String, arith}
use ezlb.Shared.Int.{pos}
use ezlb.Lvs.Types.{Destination}
use ezlb.Trafficlog.{u64_mod, connection_count_uint64, backend_stats_of}

-- math.MaxInt64 + 1
abbrev pub int64_bound : ℕ
int64_bound = 9223372036854775808

-- Where the kernel reports two counts that an int holds, none of them negative, they are passed on
-- as they are, and the current connections are exactly their sum, without overflow.
pub backend_stats_of-current_connections :
    {IP : Type 0} (svc_key : String) (dst : Destination IP) (a i : ℕ)
    → dst.active_connections ≡ pos a
    → dst.inactive_connections ≡ pos i
    → a < int64_bound
    → i < int64_bound
    → let s = backend_stats_of svc_key dst in
      (s.active_connections ≡ a)
      × (s.inactive_connections ≡ i)
      × (s.current_connections ≡ a + i)
      × (s.current_connections < u64_mod)
unfolding backend_stats_of connection_count_uint64
backend_stats_of-current_connections svc_key dst a i p q below below' =
    rw p (rw q (omega arith, omega arith, omega arith, omega arith))
