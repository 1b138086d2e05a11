-- ===== src/Server/Orderly.antt =====
-- A run of the server stops what it started, and closes the database.
use staking_indexer.Prelude.{List, [], ◌∷◌, ◌++◌, map, All, ◌≡◌, ◌≢◌, ◌⊎◌, refl, inl, inr}
use staking_indexer.Prelude.Result.{Result, ok, err, panic, Result-cases}
use staking_indexer.Server.{
  Service, prometheus, btc_notifier, event_consumer, staking_indexer_app, Call, start, stop,
  await_shutdown, close_db, Returns, Run, defer_close, run_services, run_until_shutdown,
}

-- The services whose starts can fail, in their order.
abbrev pub services : List Service
services = btc_notifier ∷ event_consumer ∷ staking_indexer_app ∷ []

-- The stops of some services, the last first.
abbrev pub stops : List Service → List Call
stops [] = []
stops (s ∷ ss) = stops ss ++ stop s ∷ []

-- Why the calls of a run are in order: all the services were started, the shutdown was awaited, and
-- they were stopped, the last first; or some were started, the start of the next failed, and those
-- were stopped, the last first; or there was no address and nothing was started. The Prometheus server
-- is started before the others and stopped after them, and the database is closed last.
pub data IsOrderly (w : Returns) (calls : List Call) : Type 0 where
  all_ran :
      All (λ s. w.starts s ≡ ok tt) services
      → calls
        ≡ start prometheus
          ∷ (map start services
              ++ await_shutdown ∷ (stops services ++ stop prometheus ∷ close_db ∷ []))
      → IsOrderly w calls
  one_failed :
      (ss : List Service) (s : Service) (later : List Service)
      → services ≡ ss ++ s ∷ later
      → All (λ x. w.starts x ≡ ok tt) ss
      → w.starts s ≢ ok tt
      → calls
        ≡ start prometheus
          ∷ (map start ss ++ start s ∷ (stops ss ++ stop prometheus ∷ close_db ∷ []))
      → IsOrderly w calls
  none_started : ((b : _) → w.address ≢ ok b) → calls ≡ close_db ∷ [] → IsOrderly w calls

closed : (r : Result (Unit {0})) (p : Run) → (defer_close r p).1 ≡ p.1 ++ close_db ∷ []
closed (ok u) p = refl
closed (err e) p = refl
closed panic p = refl

failed :
    (w : Returns) (s : Service)
    → ((x : _) × (w.starts s ≡ err x)) ⊎ (w.starts s ≡ panic)
    → w.starts s ≢ ok tt
failed w s (inl (x, e)) h = cc
failed w s (inr e) h = cc

services-IsOrderly :
    (w : Returns) (a : _)
    → w.address ≡ ok a
    → IsOrderly w ((run_services w.address w).1 ++ close_db ∷ [])
unfolding run_services
services-IsOrderly w a e = elim (Result-cases (w.starts btc_notifier)) [
  | inr (inl (x, f)) ↦
      rw (e, f)
        (one_failed ([]) btc_notifier (event_consumer ∷ staking_indexer_app ∷ []) refl tt
          (failed w btc_notifier (inl (x, f))) refl)
  | inr (inr f) ↦
      rw (e, f)
        (one_failed ([]) btc_notifier (event_consumer ∷ staking_indexer_app ∷ []) refl tt
          (failed w btc_notifier (inr f)) refl)
  | inl (u, e1) ↦ elim (Result-cases (w.starts event_consumer)) [
    | inr (inl (x, f)) ↦
        rw (e, e1, f)
          (one_failed (btc_notifier ∷ []) event_consumer (staking_indexer_app ∷ []) refl (e1, tt)
            (failed w event_consumer (inl (x, f))) refl)
    | inr (inr f) ↦
        rw (e, e1, f)
          (one_failed (btc_notifier ∷ []) event_consumer (staking_indexer_app ∷ []) refl (e1, tt)
            (failed w event_consumer (inr f)) refl)
    | inl (u, e2) ↦ elim (Result-cases (w.starts staking_indexer_app)) [
      | inr (inl (x, f)) ↦
          rw (e, e1, e2, f)
            (one_failed (btc_notifier ∷ event_consumer ∷ []) staking_indexer_app ([]) refl
              (e1, (e2, tt)) (failed w staking_indexer_app (inl (x, f))) refl)
      | inr (inr f) ↦
          rw (e, e1, e2, f)
            (one_failed (btc_notifier ∷ event_consumer ∷ []) staking_indexer_app ([]) refl
              (e1, (e2, tt)) (failed w staking_indexer_app (inr f)) refl)
      | inl (u, e3) ↦ rw (e, e1, e2, e3) (all_ran (e1, (e2, (e3, tt))) refl)
    ]
  ]
]

-- The first run of the server, however its calls turn out, starts the services in their order until
-- one fails or the shutdown comes, stops those that it started, the last first, and closes the database
-- last.
pub run_until_shutdown-IsOrderly : (w : Returns) → IsOrderly w (run_until_shutdown 0 w).1
unfolding run_until_shutdown
run_until_shutdown-IsOrderly w =
    rw (closed w.db_close (run_services w.address w)) (elim (Result-cases w.address) [
      | inl (a, e) ↦ services-IsOrderly w a e
      | inr (inl (x, e)) ↦ none_started (λ b h. cc) (rw (e, run_services) refl)
      | inr (inr e) ↦ none_started (λ b h. cc) (rw (e, run_services) refl)
    ])
