-- ===== src/Server/Reachable.antt =====
-- What holds in every state of the daemon, in whatever order its goroutines take their steps.
use ezlb.Shared.Eq.{string_eq}
use ezlb.Shared.Result.{Result}
use ezlb.Std.{Std}
use ezlb.Server.{Server}
use ezlb.Server.Daemon.{Daemon}
