-- ===== src/Trafficlog/Totals.antt =====
-- The connection counts of a service are the totals over its backends, in whatever order the map is
-- visited.
use Prim.Native.Nat.{◌+◌, ◌%◌, ◌<◌}
use mathlib.Core.List.{Permᴰ}
use mathlib.Core.Path.{subst₂}
use ezlb.Shared.{ℕ, ◌≡◌, refl, ◌∙◌, inl, inr, String, Bool, false, ◌||◌, [], ◌∷◌, arith}
use ezlb.Shared.Eq.{◌==◌, nat_eq, string_eq, ==_iff}
use ezlb.Shared.GoMap.{GoMap, lookup, insert, lookup-insert}
use ezlb.Shared.Order.{RangeOrder}
use ezlb.Shared.Tests.{if◌then◌else◌, is_some, Bool-cases}
use ezlb.Trafficlog.{
  BackendTrafficStats, ServiceConnectionCounts, u64_mod, add_uint64, counts_or_zero, add_counts,
  backend_current_connections, aggregate_service_connection_counts,
}

-- The sum of a quantity over the backends of one service.
abbrev pub total : (BackendTrafficStats → ℕ) → String → GoMap String BackendTrafficStats → ℕ
total f k [] = 0
total f k ((key, stats) ∷ backends) =
    if stats.service_key == k then f stats + total f k backends else total f k backends

-- The current connections of a backend: those that it reports, or its active and inactive ones where
-- it reports none.
abbrev pub current_of : BackendTrafficStats → ℕ
current_of s =
    if s.current_connections == 0
    then (s.active_connections + s.inactive_connections) % u64_mod
    else s.current_connections

-- Some backend is that of the service.
abbrev pub has_backend : String → GoMap String BackendTrafficStats → Bool
has_backend k [] = false
has_backend k ((key, stats) ∷ backends) = stats.service_key == k || has_backend k backends

has_backend-perm :
    (k : String) {m n : GoMap String BackendTrafficStats}
    → Permᴰ m n
    → has_backend k n ≡ has_backend k m
has_backend-perm k Permᴰ.nil = refl
has_backend-perm k (Permᴰ.cons {a} {b} p q) = rw (← p) (ground (arith, has_backend-perm k q))
has_backend-perm k (Permᴰ.swap {a} {b} {l} p q) =
    subst₂ (λ x y. has_backend k (y ∷ x ∷ l) ≡ has_backend k (a ∷ b ∷ l)) p q (ground arith)
has_backend-perm k (Permᴰ.trans p q) = has_backend-perm k q ∙ has_backend-perm k p

is_some-aggregate :
    (k : String) (backends : GoMap String BackendTrafficStats)
    (result : GoMap String ServiceConnectionCounts)
    → is_some (lookup k (aggregate_service_connection_counts backends result))
      ≡ (has_backend k backends || is_some (lookup k result))
unfolding aggregate_service_connection_counts
is_some-aggregate k [] result = refl
is_some-aggregate k ((key, stats) ∷ backends) result =
    let new = add_counts stats (counts_or_zero (lookup stats.service_key result)) in
    ground (
      arith,
      is_some-aggregate k backends (insert stats.service_key new result),
      lookup-insert stats.service_key k new result,
    )

total-perm :
    (f : BackendTrafficStats → ℕ) (k : String) {m n : GoMap String BackendTrafficStats}
    → Permᴰ m n
    → total f k n ≡ total f k m
total-perm f k Permᴰ.nil = refl
total-perm f k (Permᴰ.cons {a} {b} p q) = rw (← p) (ground (arith, total-perm f k q))
total-perm f k (Permᴰ.swap {a} {b} {l} p q) =
    subst₂ (λ x y. total f k (y ∷ x ∷ l) ≡ total f k (a ∷ b ∷ l)) p q (grind arith)
total-perm f k (Permᴰ.trans p q) = total-perm f k q ∙ total-perm f k p

mod_step : (c x t : ℕ) → ((c + x) % u64_mod + t) % u64_mod ≡ (c + (x + t)) % u64_mod
mod_step c x t = omega arith

mod_small : (c : ℕ) → c < u64_mod → c ≡ (c + 0) % u64_mod
mod_small c h = omega arith

mod_bound : (c : ℕ) → c % u64_mod < u64_mod
mod_bound c = omega arith

mod_merge : (c x t d : ℕ) → d ≡ (c + x) % u64_mod → (d + t) % u64_mod ≡ (c + (x + t)) % u64_mod
mod_merge c x t d e = rw e (mod_step c x t)

drop_zero : (c t u : ℕ) → c ≡ 0 → t ≡ u → (c + t) % u64_mod ≡ u % u64_mod
drop_zero c t u p q = omega arith

-- One of the three counts, with the quantity that it adds up.
module _ (get : ServiceConnectionCounts → ℕ) (f : BackendTrafficStats → ℕ)
    (adds : (stats : BackendTrafficStats) (counts : ServiceConnectionCounts)
      → get (add_counts stats counts) ≡ add_uint64 (get counts) (f stats)) where
  abbrev count_at : String → GoMap String ServiceConnectionCounts → ℕ
  count_at k result = get (counts_or_zero (lookup k result))

  module _ (k : String) (stats : BackendTrafficStats)
      (result : GoMap String ServiceConnectionCounts) where
    abbrev next_result : GoMap String ServiceConnectionCounts
    next_result =
        insert stats.service_key
          (add_counts stats (counts_or_zero (lookup stats.service_key result))) result

    count_at-next : count_at k next_result ≡ (
        if stats.service_key == k
        then (count_at k result + f stats) % u64_mod
        else count_at k result)
    count_at-next =
        let new = add_counts stats (counts_or_zero (lookup stats.service_key result)) in
        elim (Bool-cases (stats.service_key == k)) [
          | inl same ↦
              let at : stats.service_key ≡ k = (==_iff stats.service_key k).0 same in
              rw (lookup-insert stats.service_key k new result)
                (rw same (adds stats _ ∙ rw at refl))
          | inr other ↦ rw (lookup-insert stats.service_key k new result) (rw other refl)
        ]

  aggregate-total :
      (k : String) (backends : GoMap String BackendTrafficStats)
      (result : GoMap String ServiceConnectionCounts)
      → count_at k result < u64_mod
      → count_at k (aggregate_service_connection_counts backends result)
        ≡ (count_at k result + total f k backends) % u64_mod
  unfolding aggregate_service_connection_counts
  aggregate-total k [] result small = mod_small _ small
  aggregate-total k ((key, stats) ∷ backends) result small =
      let next = count_at-next k stats result in
      elim (Bool-cases (stats.service_key == k)) [
        | inl same ↦
            let here : count_at k (next_result k stats result)
                ≡ (count_at k result + f stats) % u64_mod =
              ground (arith, next, same) in
            let ih =
              aggregate-total k backends (next_result k stats result)
                (rw here (mod_bound (count_at k result + f stats))) in
            ih ∙ (rw same (mod_merge (count_at k result) (f stats) (total f k backends) _ here))
        | inr other ↦
            let here : count_at k (next_result k stats result) ≡ count_at k result =
              ground (arith, next, other) in
            let ih = aggregate-total k backends (next_result k stats result) (rw here small) in
            ih ∙ (rw other (rw here refl))
      ]

  from_nothing :
      (o : RangeOrder) (k : String) (backends : GoMap String BackendTrafficStats)
      → count_at k [] ≡ 0
      → count_at k (aggregate_service_connection_counts (o.arrange backends) [])
        ≡ total f k backends % u64_mod
  from_nothing o k backends none_yet =
      aggregate-total k (o.arrange backends) [] (omega arith)
      ∙ drop_zero _ _ _ none_yet (total-perm f k (o.arrange-perm backends))

-- Whatever the order of `range`, there are counts for exactly the services that have a backend, and
-- each of the three counts is the total over the backends of the service, modulo 2 ^ 64; a backend
-- that reports no current connections counts with its active and inactive ones.
pub aggregate_service_connection_counts-total :
    (o : RangeOrder) (backends : GoMap String BackendTrafficStats) (k : String)
    → let counts =
        counts_or_zero (lookup k (aggregate_service_connection_counts (o.arrange backends) [])) in
      (is_some (lookup k (aggregate_service_connection_counts (o.arrange backends) []))
        ≡ has_backend k backends)
      × (counts.active ≡ total (λ s. s.active_connections) k backends % u64_mod)
      × (counts.inactive ≡ total (λ s. s.inactive_connections) k backends % u64_mod)
      × (counts.current ≡ total current_of k backends % u64_mod)
unfolding add_counts lookup backend_current_connections
aggregate_service_connection_counts-total o backends k = (
  is_some-aggregate k (o.arrange backends) []
      ∙ ground (arith, has_backend-perm k (o.arrange-perm backends)),
  from_nothing (λ c. c.active) (λ s. s.active_connections) (λ s c. refl) o k backends refl,
  from_nothing (λ c. c.inactive) (λ s. s.inactive_connections) (λ s c. refl) o k backends refl,
  from_nothing (λ c. c.current) current_of (λ s c. refl) o k backends refl,
)
