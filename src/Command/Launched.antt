-- ===== src/Command/Launched.antt =====
-- What `start` hands to the server.
use Prim.Native.String.{String}
use staking_indexer.Prelude.{
  ℕ, ◌+◌, ◌%◌, sym, ◌<◌, ◌≤◌, u64_mod, Bytes, true, none, some, get_elem?, ◌≡◌, ◌∙◌, refl, ap, inl,
  inr, Bool-cases,
}
use staking_indexer.Prelude.Result.{Result, Error, Result-cases, ok, err, panic, with_ok}
use staking_indexer.Kvdb.{Kvdb, KvdbLaws, batch-eq-ok}
use staking_indexer.Store.Buckets.{
  staking_tx_bucket_name, unbonding_tx_bucket_name, indexer_state_bucket_name,
  confirmed_tvl_bucket_name, init_buckets,
}
use staking_indexer.Config.{Config, BtcConfig, Libraries, Network, network_name}
use staking_indexer.Config.Valid.{AreValidParts, validate-ok}
use staking_indexer.Config.Load.{load_config, or_invalid}
use staking_indexer.Config.Paths.{config_file, log_file}
use staking_indexer.Config.Backends.{to_conn_config, get_db_backend, to_queue_client_config}
use staking_indexer.Files.{Files, file_exists, with_end, with_lifted, clean_and_expand_path}
use staking_indexer.Log.{new_root_logger_with_file}
use staking_indexer.Indexer.Types.{StakingIndexer}
use staking_indexer.Indexer.Exec.{index}
use staking_indexer.Indexer.StartHeight.{get_start_height, validate_start_height}
use staking_indexer.Indexer.Exec.Index.{index-some}
use staking_indexer.Indexer.StartHeight.Range.{get_start_height-passes}
use staking_indexer.Scanner.Cache.{new_btc_cache}
use staking_indexer.Scanner.EventLoop.{new_btc_scanner}
use staking_indexer.Scanner.EventLoop.Linkage.{new_scanner}
use staking_indexer.Store.Height.{get_last_processed_height}
use staking_indexer.BtcClient.{BtcClient}
use staking_indexer.Scanner.Notifier.{new_btc_notifier}
use staking_indexer.Command.Host.{Host, Flags}
use staking_indexer.Params.{GlobalParamsRetriever, new_global_params_retriever, versioned_params}
use staking_indexer.Command.Assemble.{
  Launch, hint_cache, assemble, new_btc_client, opened, new_indexer_store, choose_start_height,
  staking_indexer_of,
}
use staking_indexer.Command.Start.{start}

or_invalid-ok :
    (r : Result (Unit {0}) × Config) (cfg : Config) → or_invalid r ≡ ok cfg → r ≡ (ok tt, cfg)
or_invalid-ok (ok u, c) cfg h = let q : c ≡ cfg = cc in rw q refl
or_invalid-ok (err e, c) cfg h = cc
or_invalid-ok (panic, c) cfg h = cc

-- A configuration that was loaded names its network and is valid.
abbrev pub IsLoadedConfig : Libraries → Config → Type 0
IsLoadedConfig l cfg =
    (n : Network) × (cfg.bitcoin_network ≡ network_name n)
    × (cfg.btc_net_params ≡ some n)
    × AreValidParts l cfg

load_config-IsLoadedConfig :
    (fs : Files) (l : Libraries) (home_path : Bytes) (s : fs.State) (cfg : Config)
    → load_config fs l home_path s ≡ ok cfg
    → IsLoadedConfig l cfg
unfolding load_config
load_config-IsLoadedConfig fs l home_path s cfg h =
    elim (Bool-cases (file_exists fs (config_file l home_path) s)) [
      | inr e ↦ absurd (cc (rw (e, load_config) at h))
      | inl e ↦
          with_ok (fs.parse_ini (config_file l home_path) s) _ (rw (e, load_config) at h)
            λ parsed p h1.
              let (n, q, named, valid) = validate-ok l parsed cfg (or_invalid-ok _ cfg h1) in
              rw q (n, named, refl, valid)
    ]

module _ (si : StakingIndexer) (db : si.store.Db) where
  get_start_height-resumed :
      (last : ℕ)
      → si.store.get_last_processed_height db ≡ ok last
      → get_start_height si db ≡ ok ((last + 1) % u64_mod)
  unfolding get_start_height
  get_start_height-resumed last q = rw (q, get_start_height) refl

  get_start_height-fresh :
      (x : Error)
      → si.store.get_last_processed_height db ≡ err x
      → get_start_height si db ≡ ok si.first_activation_height
  unfolding get_start_height
  get_start_height-fresh x q = rw (q, get_start_height) refl

module _ {kv : Kvdb} (laws : KvdbLaws kv) where
  -- Every bucket is there.
  abbrev pub HasBuckets : kv.State → Type 0
  HasBuckets s =
      (kv.has staking_tx_bucket_name s ≡ true)
      × (kv.has unbonding_tx_bucket_name s ≡ true)
      × (kv.has indexer_state_bucket_name s ≡ true)
      × (kv.has confirmed_tvl_bucket_name s ≡ true)

  init_buckets-HasBuckets : (s t : kv.State) → init_buckets kv s ≡ (ok tt, t) → HasBuckets t
  unfolding init_buckets
  init_buckets-HasBuckets s t h =
      with_ok (kv.create staking_tx_bucket_name s) _ (batch-eq-ok laws _ s t h) λ s1 e1 h1.
        with_ok (kv.create unbonding_tx_bucket_name s1) _ h1 λ s2 e2 h2.
          with_ok (kv.create indexer_state_bucket_name s2) _ h2 λ s3 e3 h3.
            let a = λ (n : String). laws.has-create _ n s s1 e1 in
            let b = λ (n : String). laws.has-create _ n s1 s2 e2 in
            let c = λ (n : String). laws.has-create _ n s2 s3 e3 in
            let d = λ (n : String). laws.has-create _ n s3 t h3 in
            (
              d staking_tx_bucket_name
                  ∙ c staking_tx_bucket_name
                  ∙ b staking_tx_bucket_name
                  ∙ a staking_tx_bucket_name,
              d unbonding_tx_bucket_name ∙ c unbonding_tx_bucket_name ∙ b unbonding_tx_bucket_name,
              d indexer_state_bucket_name ∙ c indexer_state_bucket_name,
              d confirmed_tvl_bucket_name,
            )

ok-injective {ℓ} : {A : Type ℓ} (a b : A) → ok a ≡ ok b → a ≡ b
ok-injective a b h = cc

module _ (h : Host) where
  abbrev pub indexer_of : Launch h → StakingIndexer
  indexer_of r = staking_indexer_of h r.config r.consumer r.params_versions r.first_version

  -- How the parts were made from the flags and a configuration.
  record IsAssembled (laws : KvdbLaws h.kv) (flags : Flags) (cfg : Config) (r : Launch h)
      : Type 0 where
    config : r.config ≡ cfg
    node : h.new_rpc (to_conn_config cfg.btc_config) ≡ ok r.btc_client.client
    attempts : r.btc_client.max_retry_times ≡ cfg.btc_config.max_retry_times
    parsed : h.parse_params_file flags.params_path ≡ ok r.params_versions
    first : get_elem? r.params_versions.versions 0 ≡ some r.first_version
    scanner : new_btc_scanner r.first_version.confirmation_depth ≡ ok r.scanner
    buckets : HasBuckets laws r.db
    height : choose_start_height h (indexer_of r) flags.start_height r.db ≡ ok r.start_height

  -- The start height is that of the flag. Without it, it is the height after the last one that was
  -- processed, or the first activation height where no last height can be read.
  pub record IsStartHeight (flags : Flags) (r : Launch h) : Type 0 where
    pub flagged : (n : ℕ) → flags.start_height ≡ some n → r.start_height ≡ n
    pub resumed :
        (last : ℕ)
        → flags.start_height ≡ none
        → get_last_processed_height h.kv r.db ≡ ok last
        → r.start_height ≡ (last + 1) % u64_mod
    pub fresh :
        (e : Error)
        → flags.start_height ≡ none
        → get_last_processed_height h.kv r.db ≡ err e
        → r.start_height ≡ r.first_version.params.activation_height

  -- The parts fit together: the configuration was loaded from the home directory and is valid, the
  -- client calls the node that it names, with its number of attempts, the parameters were parsed from
  -- the file of the flag, the scanner is empty and not started, with the confirmation depth of their
  -- first version, the buckets are there, and the start height is the one described.
  pub record IsWired (laws : KvdbLaws h.kv) (flags : Flags) (s : h.fs.State) (r : Launch h)
      : Type 0 where
    pub abs_path : Bytes
    pub is_home : h.env.abs flags.home ≡ ok abs_path
    pub loaded : load_config h.fs h.libraries (clean_and_expand_path h.env abs_path) s ≡ ok r.config
    pub valid : IsLoadedConfig h.libraries r.config
    pub node : h.new_rpc (to_conn_config r.config.btc_config) ≡ ok r.btc_client.client
    pub attempts : r.btc_client.max_retry_times ≡ r.config.btc_config.max_retry_times
    pub parsed : h.parse_params_file flags.params_path ≡ ok r.params_versions
    pub first : get_elem? r.params_versions.versions 0 ≡ some r.first_version
    pub scanner : r.scanner ≡ new_scanner r.first_version.confirmation_depth
    pub buckets : HasBuckets laws r.db
    pub height : IsStartHeight flags r

  new_indexer_store-HasBuckets :
      (laws : KvdbLaws h.kv) (s t : h.kv.State) → new_indexer_store h s ≡ ok t → HasBuckets laws t
  unfolding new_indexer_store
  new_indexer_store-HasBuckets laws s t e = go (init_buckets h.kv s) refl e
    where
      go :
          (r : Result (Unit {0}) × h.kv.State)
          → init_buckets h.kv s ≡ r
          → opened h r ≡ ok t
          → HasBuckets laws t
      go (ok u, t') q o =
          let same : t' ≡ t = cc o in
          init_buckets-HasBuckets laws s t (q ∙ ap (λ x. (ok tt, x)) same)
      go (err x, t') q o = absurd (cc o)
      go (panic, t') q o = absurd (cc o)

  new_btc_client-ok :
      (cfg : BtcConfig) (c : BtcClient)
      → new_btc_client h cfg ≡ ok c
      → (h.new_rpc (to_conn_config cfg) ≡ ok c.client) × (c.max_retry_times ≡ cfg.max_retry_times)
  new_btc_client-ok cfg c e = elim (Result-cases (h.new_rpc (to_conn_config cfg))) [
    | inl (rpc, q) ↦
        let same : record { retry = h.retry; client = rpc; max_retry_times = cfg.max_retry_times }
            ≡ c =
          cc (rw (q, new_btc_client) at e) in
        (
          q ∙ ap (λ (x : BtcClient). ok x.client) same,
          sym (ap (λ (x : BtcClient). x.max_retry_times) same),
        )
    | inr (inl (x, q)) ↦ absurd (cc (rw (q, new_btc_client) at e))
    | inr (inr q) ↦ absurd (cc (rw (q, new_btc_client) at e))
  ]

  retriever-parsed :
      (path : Bytes) (lp : GlobalParamsRetriever)
      → new_global_params_retriever h.parse_params_file path ≡ ok lp
      → h.parse_params_file path ≡ ok (versioned_params lp)
  retriever-parsed path lp e = with_ok (h.parse_params_file path) _ e λ params q e1.
      let same : record { params_versions = params } ≡ lp = cc in
      q ∙ ap (λ (x : GlobalParamsRetriever). ok (versioned_params x)) same

  assemble-IsAssembled :
      (laws : KvdbLaws h.kv) (flags : Flags) (cfg : Config) (r : Launch h)
      → assemble h flags cfg ≡ ok r
      → IsAssembled laws flags cfg r
  unfolding assemble
  assemble-IsAssembled laws flags cfg r e =
      with_ok (new_btc_client h cfg.btc_config) _ e λ client e1 h1.
        with_ok (new_btc_notifier h.notifier cfg.btc_config cfg.btc_net_params (hint_cache h)) _ h1
          λ notifier e2 h2.
            with_ok (get_db_backend h.get_bolt_backend cfg.database_config) _ h2 λ db0 e3 h3.
              with_ok (new_global_params_retriever h.parse_params_file flags.params_path) _ h3
                λ lp e4 h4.
                  let params = versioned_params lp in
                  with_ok (index params.versions 0) _ h4 λ first e5 h5.
                    with_ok (new_btc_scanner first.confirmation_depth) _ h5 λ scanner e6 h6.
                      with_ok (to_queue_client_config h.validate_queue_client cfg.queue_config) _ h6
                        λ queue_cfg e7 h7.
                          with_ok (h.new_queue_manager queue_cfg) _ h7 λ consumer e8 h8.
                            with_ok (new_indexer_store h db0) _ h8 λ db e9 h9.
                              with_ok
                                (choose_start_height h
                                  (staking_indexer_of h cfg consumer params first)
                                  flags.start_height db)
                                _ h9
                                λ height e10 h10. with_ok h.intercept _ h10 λ _ e11 h11.
                                  let made : Launch h = record {
                                    config = cfg;
                                    btc_client = client;
                                    btc_notifier = notifier;
                                    scanner = scanner;
                                    consumer = consumer;
                                    params_versions = params;
                                    first_version = first;
                                    db = db;
                                    start_height = height;
                                  } in
                                  let same : made ≡ r = ok-injective made r h11 in
                                  rw (← same) (record {
                                    config = refl;
                                    node = (new_btc_client-ok cfg.btc_config client e1).0;
                                    attempts = (new_btc_client-ok cfg.btc_config client e1).1;
                                    parsed = retriever-parsed flags.params_path lp e4;
                                    first = index-some params.versions 0 first e5;
                                    scanner = e6;
                                    buckets = new_indexer_store-HasBuckets laws db0 db e9;
                                    height = e10;
                                  })

  pub new_btc_scanner-new : (depth : ℕ) → new_btc_scanner depth ≡ ok (new_scanner depth)
  unfolding new_btc_scanner new_btc_cache
  new_btc_scanner-new depth = refl

  height-IsStartHeight :
      (flags : Flags) (r : Launch h)
      → choose_start_height h (indexer_of r) flags.start_height r.db ≡ ok r.start_height
      → IsStartHeight flags r
  unfolding choose_start_height
  height-IsStartHeight flags r e = record {
    flagged = λ n u. cc (rw u at e);
    resumed = λ last u q.
        let x = get_start_height-resumed (indexer_of r) r.db last q in
        ok-injective _ _ (sym (rw u at e) ∙ x);
    fresh = λ x u q.
        let y = get_start_height-fresh (indexer_of r) r.db x q in
        ok-injective _ _ (sym (rw u at e) ∙ y);
  }

  -- Where `start` succeeds, it loaded a configuration and made the parts from it.
  with_start {κ} :
      {P : Type κ} (laws : KvdbLaws h.kv) (flags : Flags) (s : h.fs.State) (r : Launch h)
      → (start h flags s).0 ≡ ok r
      → ((abs_path : Bytes) (cfg : Config)
          → h.env.abs flags.home ≡ ok abs_path
          → load_config h.fs h.libraries (clean_and_expand_path h.env abs_path) s ≡ ok cfg
          → IsAssembled laws flags cfg r
          → P)
      → P
  unfolding start
  with_start {P = P} laws flags s r e k =
      with_lifted (λ _. P) (h.env.abs flags.home) _ s r
        (λ p home.
          let home_path = clean_and_expand_path h.env p in
          with_lifted (λ _. P) (load_config h.fs h.libraries home_path s) _ s r
            λ cfg loaded.
              with_end (λ _. P)
                (new_root_logger_with_file h.env h.fs (log_file h.libraries home_path)
                  cfg.log_level)
                _ s r
                λ _ _ _ made. k p cfg home loaded (assemble-IsAssembled laws flags cfg r made))
        e

  pub start-IsWired :
      (laws : KvdbLaws h.kv) (flags : Flags) (s : h.fs.State) (r : Launch h)
      → (start h flags s).0 ≡ ok r
      → IsWired laws flags s r
  start-IsWired laws flags s r e = with_start laws flags s r e λ p cfg home loaded a.
      let same = sym a.config in
      let valid =
        load_config-IsLoadedConfig h.fs h.libraries (clean_and_expand_path h.env p) s cfg loaded in
      record {
        abs_path = p;
        is_home = home;
        loaded = loaded ∙ ap ok same;
        valid = rw a.config valid;
        node = rw a.config a.node;
        attempts = rw a.config a.attempts;
        parsed = a.parsed;
        first = a.first;
        scanner =
            ok-injective _ _
              (sym a.scanner ∙ new_btc_scanner-new r.first_version.confirmation_depth);
        buckets = a.buckets;
        height = height-IsStartHeight flags r a.height;
      }

  -- Without the flag, the start height that `start` hands to the server passes the validation of the
  -- indexer, where a last processed height that can be read is below 2 ^ 64 - 1 and at least the
  -- earliest activation height less one.
  pub start-accepted :
      (laws : KvdbLaws h.kv) (flags : Flags) (s : h.fs.State) (r : Launch h)
      → flags.start_height ≡ none
      → ((last : ℕ)
          → (indexer_of r).store.get_last_processed_height r.db ≡ ok last
          → (last + 1 < u64_mod) × ((indexer_of r).first_activation_height ≤ last + 1))
      → (start h flags s).0 ≡ ok r
      → validate_start_height (indexer_of r) r.start_height r.db ≡ ok tt
  unfolding choose_start_height
  start-accepted laws flags s r unset range e = with_start laws flags s r e λ _ cfg _ _ a.
      get_start_height-passes (indexer_of r) r.db r.start_height range (rw unset at a.height)
