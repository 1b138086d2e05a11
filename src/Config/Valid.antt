-- ===== src/Config/Valid.antt =====
-- Which configurations are valid.
use staking_indexer.Prelude.{
  ℕ, ℤ, pos, negsuc, ◌≤ℤ◌, ◌≤◌, ltb_ℤ, Bool, true, false, not, ◌||◌, Bytes, bytes_eq, bytes_eq→eq,
  bytes_eq_refl, Option, none, some, [], ◌∷◌, ◌==◌, ◌≡◌, ◌≢◌, ◌↔◌, ◌⊎◌, ◌∙◌, refl, sym, ap, inl,
  inr, arith, Bool-cases, if◌then◌else◌,
}
use staking_indexer.Prelude.Result.{Result, ok, err, panic, guard, ◌>>◌, invalid_config, pair-eq}
use staking_indexer.Config.{
  BtcConfig, DbConfig, QueueConfig, MetricsConfig, Config, Libraries, Network, mainnet, testnet,
  regtest, simnet, signet, network_name, network_of, is_empty, is_positive, validate_db,
  validate_btc, validate_metrics, validate_queue, validate_parts, validate,
}

-- Two checks pass if each of them does.
and_then_iff :
    {A B : Type 0} {r m : Result (Unit {0})}
    → (r ≡ ok tt) ↔ A
    → (m ≡ ok tt) ↔ B
    → (r >> m ≡ ok tt) ↔ (A × B)
and_then_iff {r = ok u} (p, p') (q, q') = (λ h. (p refl, q h), λ ab. q' ab.1)
and_then_iff {r = err e} (p, p') (q, q') = (λ h. cc, λ ab. cc (p' ab.0))
and_then_iff {r = panic} (p, p') (q, q') = (λ h. cc, λ ab. cc (p' ab.0))

guard_iff : {A : Type 0} {b : Bool} → (b ≡ true) ↔ A → (guard b invalid_config ≡ ok tt) ↔ A
guard_iff {b = true} (p, p') = (λ h. p refl, λ a. refl)
guard_iff {b = false} (p, p') = (λ h. cc, λ a. cc (p' a))

not_empty_iff : (s : Bytes) → (not (is_empty s) ≡ true) ↔ (s ≢ [])
not_empty_iff [] = (λ h. cc, λ ne. absurd (ne refl))
not_empty_iff (x ∷ xs) = (λ h e. cc, λ ne. refl)

is_positive_iff : (v : ℤ) → (is_positive v ≡ true) ↔ (pos 1 ≤ℤ v)
is_positive_iff (pos n) = ground arith
is_positive_iff (negsuc n) = ground arith

not_zero_iff : (n : ℕ) → (not (n == 0) ≡ true) ↔ (1 ≤ n)
not_zero_iff n = ground arith

in_range_iff :
    (v : ℤ)
    → (not (ltb_ℤ v (pos 0) || ltb_ℤ (pos 65535) v) ≡ true) ↔ ((pos 0 ≤ℤ v) × (v ≤ℤ pos 65535))
in_range_iff (pos n) = ground arith
in_range_iff (negsuc n) = ground arith

either_iff : (s a b : Bytes) → (bytes_eq s a || bytes_eq s b ≡ true) ↔ ((s ≡ a) ⊎ (s ≡ b))
either_iff s a b = elim (Bool-cases (bytes_eq s a)) [
  | inl e ↦ rw e ((λ h. inl (bytes_eq→eq s a e)), λ h. refl)
  | inr e ↦ rw e (
    (λ h. inr (bytes_eq→eq s b h)),
    λ h. elim h [
      | inl q ↦ absurd (cc (e, ap (λ x. bytes_eq x a) q ∙ bytes_eq_refl a))
      | inr q ↦ rw q (bytes_eq_refl b)
    ],
  )
]

pub network_of-network_name : (n : Network) → network_of (network_name n) ≡ some n
unfolding network_of bytes_eq
network_of-network_name mainnet = refl
network_of-network_name testnet = refl
network_of-network_name regtest = refl
network_of-network_name simnet = refl
network_of-network_name signet = refl

-- What is left of the switch after the name of `n`.
named :
    (s : Bytes) (n m : Network) (rest : Option Network)
    → (rest ≡ some m → s ≡ network_name m)
    → (if bytes_eq s (network_name n) then some n else rest) ≡ some m
    → s ≡ network_name m
named s n m rest later h = elim (Bool-cases (bytes_eq s (network_name n))) [
  | inl e ↦ let same : n ≡ m = cc (rw e at h) in bytes_eq→eq s _ e ∙ ap network_name same
  | inr e ↦ later (rw e at h)
]

network_name-network_of : (s : Bytes) (n : Network) → network_of s ≡ some n → s ≡ network_name n
unfolding network_of
network_name-network_of s n = named s mainnet n _ (
    named s testnet n _
      (named s regtest n _ (named s simnet n _ (named s signet n none (λ h. cc)))))

abbrev pub IsValidDb : DbConfig → Type 0
IsValidDb cfg = (cfg.db_path ≢ []) × (cfg.db_file_name ≢ [])

abbrev pub IsValidBtc : BtcConfig → Type 0
IsValidBtc cfg =
    (cfg.rpc_host ≢ [])
    × ((cfg.rpc_user ≢ [])
        × ((cfg.rpc_pass ≢ [])
            × ((pos 1 ≤ℤ cfg.block_polling_interval)
                × ((pos 1 ≤ℤ cfg.tx_polling_interval)
                    × ((1 ≤ cfg.block_cache_size)
                        × ((1 ≤ cfg.max_retry_times) × ((pos 1 ≤ℤ cfg.retry_interval))))))))

validate_db_iff : (cfg : DbConfig) → (validate_db cfg ≡ ok tt) ↔ IsValidDb cfg
unfolding validate_db
validate_db_iff cfg =
    and_then_iff (guard_iff (not_empty_iff cfg.db_path))
      (guard_iff (not_empty_iff cfg.db_file_name))

validate_btc_iff : (cfg : BtcConfig) → (validate_btc cfg ≡ ok tt) ↔ IsValidBtc cfg
unfolding validate_btc
validate_btc_iff cfg = and_then_iff (guard_iff (not_empty_iff cfg.rpc_host)) (
    and_then_iff (guard_iff (not_empty_iff cfg.rpc_user)) (
      and_then_iff (guard_iff (not_empty_iff cfg.rpc_pass)) (
        and_then_iff (guard_iff (is_positive_iff cfg.block_polling_interval)) (
          and_then_iff (guard_iff (is_positive_iff cfg.tx_polling_interval)) (
            and_then_iff (guard_iff (not_zero_iff cfg.block_cache_size)) (
              and_then_iff (guard_iff (not_zero_iff cfg.max_retry_times))
                (guard_iff (is_positive_iff cfg.retry_interval))))))))

module _ (l : Libraries) where
  abbrev pub IsValidMetrics : MetricsConfig → Type 0
  IsValidMetrics cfg =
      ((pos 0 ≤ℤ cfg.port) × (cfg.port ≤ℤ pos 65535)) × (l.parse_ip cfg.host ≡ true)

  abbrev pub IsValidQueue : QueueConfig → Type 0
  IsValidQueue cfg =
      (cfg.user ≢ [])
      × ((cfg.password ≢ [])
          × ((cfg.url ≢ [])
              × ((pos 1 ≤ℤ cfg.processing_timeout)
                  × ((pos 1 ≤ℤ cfg.msg_max_retry_attempts)
                      × ((pos 1 ≤ℤ cfg.re_queue_delay_time)
                          × (((cfg.queue_type ≡ l.classic_queue_type)
                              ⊎ (cfg.queue_type ≡ l.quorum_queue_type))))))))

  -- Each part is valid: no string is empty, intervals and counts are positive, the port is in range, the
  -- host an IP address, the queue of a known type.
  abbrev pub AreValidParts : Config → Type 0
  AreValidParts cfg =
      IsValidDb cfg.database_config
      × (IsValidMetrics cfg.metrics_config
          × (IsValidQueue cfg.queue_config × IsValidBtc cfg.btc_config))

  validate_metrics_iff :
      (cfg : MetricsConfig) → (validate_metrics l cfg ≡ ok tt) ↔ IsValidMetrics cfg
  unfolding validate_metrics
  validate_metrics_iff cfg =
      and_then_iff (guard_iff (in_range_iff cfg.port)) (guard_iff (λ h. h, λ h. h))

  validate_queue_iff : (cfg : QueueConfig) → (validate_queue l cfg ≡ ok tt) ↔ IsValidQueue cfg
  unfolding validate_queue
  validate_queue_iff cfg = and_then_iff (guard_iff (not_empty_iff cfg.user)) (
      and_then_iff (guard_iff (not_empty_iff cfg.password)) (
        and_then_iff (guard_iff (not_empty_iff cfg.url)) (
          and_then_iff (guard_iff (is_positive_iff cfg.processing_timeout)) (
            and_then_iff (guard_iff (is_positive_iff cfg.msg_max_retry_attempts)) (
              and_then_iff (guard_iff (is_positive_iff cfg.re_queue_delay_time)) (
                guard_iff (either_iff cfg.queue_type l.classic_queue_type l.quorum_queue_type)))))))

  validate_parts_iff : (cfg : Config) → (validate_parts l cfg ≡ ok tt) ↔ AreValidParts cfg
  unfolding validate_parts
  validate_parts_iff cfg = and_then_iff (validate_db_iff cfg.database_config) (
      and_then_iff (validate_metrics_iff cfg.metrics_config)
        (and_then_iff (validate_queue_iff cfg.queue_config) (validate_btc_iff cfg.btc_config)))

  validated :
      (cfg : Config) (o : Option Network) (n : Network)
      → network_of cfg.bitcoin_network ≡ o
      → (validate l cfg ≡ (ok tt, record cfg { btc_net_params = some n }))
        ↔ ((cfg.bitcoin_network ≡ network_name n) × AreValidParts cfg)
  unfolding validate
  validated cfg none n e = (
    (λ h. absurd (cc (ap (λ p. p.0) (rw (e, validate) at h)))),
    λ v. absurd (cc (e, ap network_of v.0 ∙ network_of-network_name n)),
  )
  validated cfg (some m) n e =
      let (p, p') = validate_parts_iff (record cfg { btc_net_params = some m }) in
      (
        (λ h.
            let h' = rw (e, validate) at h in
            let same : m ≡ n =
              cc (ap (λ (q : Result (Unit {0}) × Config). q.1.btc_net_params) h') in
            (
              network_name-network_of cfg.bitcoin_network m e ∙ ap network_name same,
              p (ap (λ (q : Result (Unit {0}) × Config). q.0) h'),
            )),
        λ v.
            let same : m ≡ n = cc (e, ap network_of v.0 ∙ network_of-network_name n) in
            pair-eq (validate l cfg) (ok tt) (record cfg { btc_net_params = some n })
              (rw (e, validate) (p' v.1)) (rw (e, same, validate) refl),
      )

  pub validate_iff :
      (cfg : Config) (n : Network)
      → (validate l cfg ≡ (ok tt, record cfg { btc_net_params = some n }))
        ↔ ((cfg.bitcoin_network ≡ network_name n) × AreValidParts cfg)
  validate_iff cfg n = validated cfg (network_of cfg.bitcoin_network) n refl

  -- What a validation without an error says, and changes.
  pub validate-ok :
      (cfg cfg' : Config)
      → validate l cfg ≡ (ok tt, cfg')
      → (n : Network) × (cfg' ≡ record cfg { btc_net_params = some n })
        × (cfg.bitcoin_network ≡ network_name n)
        × AreValidParts cfg
  unfolding validate
  validate-ok cfg cfg' h = go (network_of cfg.bitcoin_network) refl
    where
      go :
          (o : Option Network)
          → network_of cfg.bitcoin_network ≡ o
          → (n : Network) × (cfg' ≡ record cfg { btc_net_params = some n })
            × (cfg.bitcoin_network ≡ network_name n)
            × AreValidParts cfg
      go none e = absurd (cc (ap (λ p. p.0) (rw (e, validate) at h)))
      go (some n) e =
          let h' = rw (e, validate) at h in
          let changed : cfg' ≡ record cfg { btc_net_params = some n } =
            sym (ap (λ (q : Result (Unit {0}) × Config). q.1) h') in
          let valid = (validate_iff cfg n).0 (rw changed at h) in (n, changed, valid.0, valid.1)
