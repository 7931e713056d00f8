-- ===== src/Std/Sample.antt =====
-- A concrete Std for tests: it reads the few addresses that they use.
use mathlib.Core.List.Permᴰ
use ezlb.Shared.{String, Option, none, some}
use ezlb.Shared.Eq.{◌==◌, string_eq}
use ezlb.Shared.Int.{ℤ, pos}
use ezlb.Shared.Order.{RangeOrder}
use ezlb.Shared.Tests.{if◌then◌else◌}
use ezlb.Std.{Std}

abbrev split : String → Option (String × String)
split s =
    if s == "10.0.0.1:80"
    then some ("10.0.0.1", "80")
    else if s == "10.0.0.2:80"
    then some ("10.0.0.2", "80")
    else if s == "10.0.1.1:8080"
    then some ("10.0.1.1", "8080")
    else if s == "10.0.1.2:8080"
    then some ("10.0.1.2", "8080")
    else none

abbrev number : String → Option ℤ
number s = if s == "80" then some (pos 80) else if s == "8080" then some (pos 8080) else none

abbrev duration : String → Option ℤ
duration s = if s == "10s" then some (pos 10000000000) else none

-- An address is its own text.
abbrev pub sample_std : Std
sample_std = record {
  IP = String;
  split_host_port = split;
  parse_ip = λ s. if s == "" then none else some s;
  to4 = λ ip. some ip;
  ip_string = λ ip. ip;
  atoi = number;
  parse_duration = duration;
}

-- `range` in the order of insertion.
abbrev pub in_order : RangeOrder
in_order = record { arrange = λ xs. xs; arrange-perm = λ xs. Permᴰ.refl xs }
