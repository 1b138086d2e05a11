-- ===== src/Server.antt =====
-- server/server.go: `RunUntilShutdown`, as the sequence of the calls that it makes. A deferred call
-- is made when the function returns, also after an error or a panic, the last deferred first.
pub mod Orderly
use staking_indexer.Prelude.{
  ℕ, suc, ◌+◌, ◌≤◌, ◌<◌, Bool, true, false, Bytes, List, [], ◌∷◌, ◌++◌, map, take, ◌==◌,
  if◌then◌else◌, ◌≡◌, ◌↔◌, ◌⊎◌, refl, inl, inr, arith,
}
use staking_indexer.Prelude.Result.{Result, ok, err, panic, Result-cases, Error}

pub data Service : Type 0 where
  prometheus : Service
  btc_notifier : Service
  event_consumer : Service
  staking_indexer_app : Service

pub data Call : Type 0 where
  start : Service → Call
  stop : Service → Call
  await_shutdown : Call
  close_db : Call

-- What the calls return: the address of the metrics, the starts that can fail, and the closing of the
-- database. The error of a stop is logged only.
pub record Returns : Type 0 where
  pub address : Result Bytes
  pub starts : Service → Result (Unit {0})
  pub db_close : Result (Unit {0})

abbrev pub Run : Type 0
Run = Result (Unit {0}) × List Call

-- `defer stop(...)` in front of the rest of a function.
abbrev pub defer_stop : Service → Run → Run
defer_stop s (r, calls) = (r, calls ++ stop s ∷ [])

-- An error of the closing is fatal.
abbrev pub defer_close : Result (Unit {0}) → Run → Run
defer_close (ok u) (r, calls) = (r, calls ++ close_db ∷ [])
defer_close (err e) (r, calls) = (panic, calls ++ close_db ∷ [])
defer_close panic (r, calls) = (panic, calls ++ close_db ∷ [])

-- The start of a service, and the rest of the function if it succeeds, with the stop deferred.
abbrev pub start_then : Service → Result (Unit {0}) → Run → Run
start_then s (ok u) rest = let (r, calls) = defer_stop s rest in (r, start s ∷ calls)
start_then s (err e) rest = (err e, start s ∷ [])
start_then s panic rest = (panic, start s ∷ [])

-- What follows the address of the metrics. The Prometheus server runs beside, and its start does not
-- fail here.
unfoldable pub run_services : Result Bytes → Returns → Run
run_services (err e) w = (err e, [])
run_services panic w = (panic, [])
run_services (ok prom_addr) w = start_then prometheus (ok tt) (
    start_then btc_notifier (w.starts btc_notifier) (
      start_then event_consumer (w.starts event_consumer) (
        start_then staking_indexer_app (w.starts staking_indexer_app)
          (ok tt, await_shutdown ∷ []))))

-- `started` is the counter before the call: only the first call runs.
unfoldable pub run_until_shutdown : ℕ → Returns → Run
unfolding run_services
run_until_shutdown started w =
    if started + 1 == 1 then defer_close w.db_close (run_services w.address w) else (ok tt, [])
