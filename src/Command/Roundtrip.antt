-- ===== src/Command/Roundtrip.antt =====
-- What `initHome` writes, `LoadConfig` reads.
use staking_indexer.Prelude.{Bool, true, Bytes, none, List, [], ◌∷◌, ◌≡◌, refl, ap, inl, inr, In}
use staking_indexer.Prelude.Result.{ok}
use staking_indexer.Config.{Config, Libraries, Network, signet, network_name}
use staking_indexer.Config.Paths.{config_file, log_dir, data_dir}
use staking_indexer.Config.Defaults.{
  new_config, default_config_with_home, default_config_with_home-validated,
}
use staking_indexer.Config.Load.{load_config}
use staking_indexer.Files.{
  found, Files, file_exists, Environment, lifted, make_directory, clean_and_expand_path, with_end,
}
use staking_indexer.Command.Init.{must_be_new, make_home, init_home}

-- The choices of the log level: "trace", "debug", "info", "warn", "error" and "fatal".
abbrev log_level_choices : List Bytes
log_level_choices =
    (b't' ∷ b'r' ∷ b'a' ∷ b'c' ∷ b'e' ∷ [])
    ∷ (b'd' ∷ b'e' ∷ b'b' ∷ b'u' ∷ b'g' ∷ [])
    ∷ (b'i' ∷ b'n' ∷ b'f' ∷ b'o' ∷ [])
    ∷ (b'w' ∷ b'a' ∷ b'r' ∷ b'n' ∷ [])
    ∷ (b'e' ∷ b'r' ∷ b'r' ∷ b'o' ∷ b'r' ∷ [])
    ∷ (b'f' ∷ b'a' ∷ b't' ∷ b'a' ∷ b'l' ∷ [])
    ∷ []

-- The options with choices have one of them.
abbrev pub HasChoices : Config → Type 0
HasChoices cfg =
    In cfg.log_level log_level_choices × (n : Network) × (cfg.bitcoin_network ≡ network_name n)

-- A file that go-flags wrote is there, and is parsed into the options that were written; the
-- parameters of the network are no option.
pub record IniLaws (fs : Files) : Type 0 where
  pub stat-write :
      (cfg : Config) (path : Bytes) (s t : fs.State)
      → fs.write_ini cfg path s ≡ (ok tt, t)
      → fs.stat path t ≡ found
  pub parse-write :
      (cfg : Config) (path : Bytes) (s t : fs.State)
      → HasChoices cfg
      → fs.write_ini cfg path s ≡ (ok tt, t)
      → fs.parse_ini path t ≡ ok (record cfg { btc_net_params = none })

module _ {fs : Files} (laws : IniLaws fs) (env : Environment) (l : Libraries) where
  written-load_config :
      (home_path : Bytes) (cfg : Config) (s : fs.State)
      → default_config_with_home l home_path ≡ ok cfg
      → (fs.write_ini cfg (config_file l home_path) s).0 ≡ ok tt
      → load_config fs l home_path (fs.write_ini cfg (config_file l home_path) s).1 ≡ ok cfg
  unfolding load_config
  written-load_config home_path cfg s d w =
      let t = (fs.write_ini cfg (config_file l home_path) s).1 in
      let e : fs.write_ini cfg (config_file l home_path) s ≡ (ok tt, t) = λ i. (w i, t) in
      let (v, q) = default_config_with_home-validated l home_path cfg d in
      let p =
        laws.parse-write cfg (config_file l home_path) s t
          (rw q (inr (inr (inl refl)), signet, refl)) e in
      let same : record cfg { btc_net_params = none } ≡ new_config l home_path =
        ap (λ (c : Config). record c { btc_net_params = none }) q in
      let there : file_exists fs (config_file l home_path) t ≡ true =
        rw (laws.stat-write cfg (config_file l home_path) s t e, file_exists) refl in
      rw (there, p, same, v, load_config) refl

  -- The default configuration of the home directory is loaded.
  abbrev IsLoaded : Bytes → fs.State → Type 0
  IsLoaded home_path t =
      (cfg : Config) × (default_config_with_home l home_path ≡ ok cfg)
      × (load_config fs l home_path t ≡ ok cfg)

  -- The rest of the command, for a home directory.
  made :
      (home_path : Bytes) (force : Bool) (s : fs.State)
      → (make_home fs l home_path force s).0 ≡ ok tt
      → IsLoaded home_path (make_home fs l home_path force s).1
  unfolding make_home
  made home_path force s =
      let Loads : fs.State → Type 0 = IsLoaded home_path in
      with_end Loads (must_be_new fs home_path force) _ s tt λ _ s1 _.
        with_end Loads (make_directory fs home_path) _ s1 tt λ _ s2 _.
          with_end Loads (make_directory fs (log_dir l home_path)) _ s2 tt λ _ s3 _.
            with_end Loads (make_directory fs (data_dir l home_path)) _ s3 tt λ _ s4 _.
              with_end Loads (lifted (default_config_with_home l home_path)) _ s4 tt
                λ cfg s5 d w. (cfg, d, written-load_config home_path cfg s5 d w)

  -- Where the command `init` succeeds for a home directory, loading the configuration from there
  -- afterwards succeeds, and gives the default configuration of the directory: where a file that was
  -- written is parsed into what was written.
  pub init_home-load_config :
      (home_flag abs_path : Bytes) (force : Bool) (s : fs.State)
      → env.abs home_flag ≡ ok abs_path
      → (init_home fs env l home_flag force s).0 ≡ ok tt
      → let home_path = clean_and_expand_path env abs_path in
        (cfg : Config) × (default_config_with_home l home_path ≡ ok cfg)
        × (load_config fs l home_path (init_home fs env l home_flag force s).1 ≡ ok cfg)
  unfolding init_home
  init_home-load_config home_flag abs_path force s a h =
      with_end (IsLoaded (clean_and_expand_path env abs_path)) (lifted (env.abs home_flag)) _ s tt
        (λ p s0 e h0.
          let same : p ≡ abs_path = cc (e, a) in
          rw (← same) (made (clean_and_expand_path env p) force s0 h0))
        h
