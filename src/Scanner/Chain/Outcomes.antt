-- ===== src/Scanner/Chain/Outcomes.antt =====
-- What a commit, a round of `Bootstrap` and a new block come to, where the cache has room: each fails
-- and changes nothing, or the new block joins the cache, and what trimming returns is committed.
use staking_indexer.Prelude.{
  ℕ, suc, leb, drop, ◌-◌, ◌≤◌, ◌<◌, pos, true, false, some, List, [], ◌∷◌, ◌++◌, ◌≡◌, ◌≢◌, ◌⊎◌,
  refl, sym, bytes_eq→eq, inl, inr, arith, length, length-append, Bool-cases, Option-cases,
  bytes_eq, to_u64, ◌≤ℤ◌, leb_ℤ, ltb_ℤ, ltb→le,
}
use staking_indexer.Prelude.Result.{
  Error, missing_blocks, parent_mismatch, no_unconfirmed_blocks, ok, err, panic, Result-cases,
}
use staking_indexer.Wire.{Codec}
use staking_indexer.Wire.Blocks.{IndexedBlock, block_hash}
use staking_indexer.Scanner.Cache.{BtcCache, add, tip, trim_confirmed_blocks, get_last_blocks}
use staking_indexer.Scanner.Cache.Bounds.{add-eq, trim_confirmed_blocks_lem}
use staking_indexer.Scanner.Poller.{
  BtcPoller, Client, Act, kept_blocks, BlockEpoch, ◌>>=◌, lift, on_cache, follows, new_tip,
  connects, advance_tip, send, get_unconfirmed_blocks, commit_chain_update, commit_batch,
  bootstrap_block, accept_block, handle_new_block, next_height,
}
use staking_indexer.Scanner.Poller.Rounds.{HasRoom, with_blocks}

trim_confirmed_blocks-short :
    (k : ℕ) (b : BtcCache)
    → leb (length b.blocks) k ≡ true
    → trim_confirmed_blocks (pos k) b ≡ (ok [], b)
unfolding trim_confirmed_blocks
trim_confirmed_blocks-short k b h = rw h refl

-- With a depth of at least 1, the unconfirmed blocks can be had.
pub get_unconfirmed_blocks-ok :
    (k : ℕ) (s : BtcPoller)
    → s.confirmation_depth ≡ suc k
    → (un : List IndexedBlock) × (get_unconfirmed_blocks s ≡ ok un)
unfolding get_unconfirmed_blocks get_last_blocks
get_unconfirmed_blocks-ok k s d = elim (Option-cases (tip s.unconfirmed_block_cache)) [
  | inl e ↦ ([], rw (e, get_unconfirmed_blocks) refl)
  | inr (t, e) ↦ elim (Bool-cases (leb (length s.unconfirmed_block_cache.blocks) k)) [
    | inl l ↦ (s.unconfirmed_block_cache.blocks, rw (e, d, l, get_unconfirmed_blocks) refl)
    | inr l ↦ (
      drop (length s.unconfirmed_block_cache.blocks - k) s.unconfirmed_block_cache.blocks,
      rw (e, d, l, get_unconfirmed_blocks) refl,
    )
  ]
]

module _ (c : Codec) where
  -- The poller after an update with `bs` and `un` was sent.
  abbrev pub pushed : BtcPoller → List IndexedBlock → List IndexedBlock → BtcPoller
  pushed s bs un = record s {
    confirmed_tip_block = new_tip c s.confirmed_tip_block bs;
    sent = s.sent ++ record { confirmed_blocks = bs; unconfirmed_blocks = un } ∷ [];
  }

  pub commit_cases :
      (k : ℕ) (bs : List IndexedBlock) (s : BtcPoller)
      → s.confirmation_depth ≡ suc k
      → ((follows c s.confirmed_tip_block bs ≡ false) × (commit_chain_update c bs s ≡ (panic, s)))
        ⊎ ((follows c s.confirmed_tip_block bs ≡ true)
            × (un : List IndexedBlock) × (commit_chain_update c bs s ≡ (ok tt, pushed s bs un)))
  unfolding commit_chain_update advance_tip send ◌>>=◌
  commit_cases k bs s d = elim (Bool-cases (follows c s.confirmed_tip_block bs)) [
    | inr e ↦ inl (e, rw e refl)
    | inl e ↦
        let moved : BtcPoller = record s {
          confirmed_tip_block = new_tip c s.confirmed_tip_block bs;
        } in
        let (un, q) = get_unconfirmed_blocks-ok k moved d in inr (e, un, rw (e, q) refl)
  ]

module _ (k : ℕ) (ib : IndexedBlock) (s : BtcPoller) (r : HasRoom k s) where
  -- The poller whose cache holds what trimming leaves of its blocks and the new one.
  pub record IsTrimmed : Type 0 where
    pub confirmed : List IndexedBlock
    pub rest : List IndexedBlock
    pub split : confirmed ++ rest ≡ s.unconfirmed_block_cache.blocks ++ ib ∷ []
    pub few : length rest ≤ k
    pub tip_kept : 0 < k → 0 < length rest

  -- Adding the block and trimming the cache cannot fail.
  pub add_and_trim :
      {A : Type 0} (f : List IndexedBlock → Act A)
      → (p : IsTrimmed) × ((on_cache (add ib) >>= λ _.
              (λ s. (ok s.confirmation_depth, s)) >>= λ depth.
              on_cache (trim_confirmed_blocks (kept_blocks depth)) >>= f)
            s
          ≡ f p.confirmed (with_blocks s p.rest))
  unfolding on_cache with_blocks ◌>>=◌
  add_and_trim f =
      let room = r.room in
      let few = r.few in
      let (n, e, z, _, l) =
        add-eq ib s.unconfirmed_block_cache (omega (arith, room), omega (arith, room, few)) in
      let zero_n = z (omega (arith, room, few)) in
      let (res, rest, t, split, short, exact) =
        trim_confirmed_blocks_lem k (record s.unconfirmed_block_cache {
          blocks = s.unconfirmed_block_cache.blocks ++ ib ∷ [];
        }) in
      let more = length-append s.unconfirmed_block_cache.blocks (ib ∷ []) in
      let kept : 0 < k → 0 < length rest = λ h.
        elim (Bool-cases (leb (length (s.unconfirmed_block_cache.blocks ++ ib ∷ [])) k)) [
          | inl l ↦
              let q : s.unconfirmed_block_cache.blocks ++ ib ∷ [] ≡ rest = cc (
                trim_confirmed_blocks-short k
                    (record s.unconfirmed_block_cache {
                      blocks = s.unconfirmed_block_cache.blocks ++ ib ∷ [];
                    })
                    l,
                t,
              ) in
              rw (sym q) (omega (arith, more))
          | inr l ↦ ground (arith, h, l, exact)
        ] in
      (
        record { confirmed = res; rest = rest; split = split; few = short; tip_kept = kept },
        rw (e, zero_n, r.depth, t) refl,
      )

module _ (c : Codec) (k : ℕ) (s : BtcPoller) (r : HasRoom k s) where
  -- A round of `Bootstrap` fails and changes nothing, or commits what trimming returns.
  pub round_cases :
      (client : Client) (height : ℕ) (acc : List IndexedBlock)
      → (((xs : List IndexedBlock) → (bootstrap_block c client height acc s).0 ≢ ok xs)
          × ((bootstrap_block c client height acc s).1 ≡ s)
          × ((ib : IndexedBlock)
              → client.get_block_by_height height ≡ ok ib
              → connects c (tip s.unconfirmed_block_cache) ib ≡ false))
        ⊎ ((ib : IndexedBlock) × (p : IsTrimmed k ib s r) × (client.get_block_by_height height
              ≡ ok ib)
            × (connects c (tip s.unconfirmed_block_cache) ib ≡ true)
            × (bootstrap_block c client height acc s
                ≡ commit_batch c (acc ++ p.confirmed) (with_blocks s p.rest)))
  unfolding bootstrap_block lift ◌>>=◌
  round_cases client height acc = elim (Result-cases (client.get_block_by_height height)) [
    | inr (inl (x, e)) ↦ inl (rw e ((λ xs h. cc), refl, λ ib h. cc))
    | inr (inr e) ↦ inl (rw e ((λ xs h. cc), refl, λ ib h. cc))
    | inl (ib, e) ↦ elim (Bool-cases (connects c (tip s.unconfirmed_block_cache) ib)) [
      | inr f ↦ inl (rw (e, f) ((λ xs h. cc), refl, λ ib' h. let q : ib ≡ ib' = cc in rw (sym q) f))
      | inl f ↦
          let (p, q) = add_and_trim k ib s r (λ more. commit_batch c (acc ++ more)) in
          inr (ib, p, e, f, rw (e, f) q)
    ]
  ]

  -- A new block fails to join and changes nothing, or commits what trimming returns.
  pub accept_cases :
      (client : Client) (b : BlockEpoch)
      → ((accept_block c client b s).0 ≢ ok tt) × ((accept_block c client b s).1 ≡ s)
        ⊎ ((ib : IndexedBlock) × (p : IsTrimmed k ib s r) × (client.get_block_by_height
                (to_u64 b.height)
              ≡ ok ib)
            × (block_hash c ib ≡ b.hash)
            × (accept_block c client b s
                ≡ commit_chain_update c p.confirmed (with_blocks s p.rest)))
  unfolding accept_block lift ◌>>=◌
  accept_cases client b = elim (Result-cases (client.get_block_by_height (to_u64 b.height))) [
    | inr (inl (x, e)) ↦ inl (rw e ((λ h. cc), refl))
    | inr (inr e) ↦ inl (rw e ((λ h. cc), refl))
    | inl (ib, e) ↦ elim (Bool-cases (bytes_eq (block_hash c ib) b.hash)) [
      | inr f ↦ inl (rw (e, f) ((λ h. cc), refl))
      | inl f ↦
          let (p, q) = add_and_trim k ib s r (commit_chain_update c) in
          inr (ib, p, e, bytes_eq→eq _ _ f, rw (e, f) q)
    ]
  ]

-- A new block is passed over, or refused, which changes nothing, or it follows the tip of the cache.
pub new_block_cases :
    (c : Codec) (client : Client) (b : BlockEpoch) (s : BtcPoller)
    → ((t : IndexedBlock) × (tip s.unconfirmed_block_cache ≡ some t)
        × (b.height ≤ℤ t.height)
        × (handle_new_block c client b s ≡ (ok tt, s)))
      ⊎ ((x : Error) × (handle_new_block c client b s ≡ (err x, s)))
      ⊎ ((t : IndexedBlock) × (tip s.unconfirmed_block_cache ≡ some t)
          × ((b.height ≤ℤ t.height → ⊥) × (b.height ≤ℤ next_height t.height))
          × (b.block_header.prev_block ≡ block_hash c t)
          × (handle_new_block c client b s ≡ accept_block c client b s))
unfolding handle_new_block
new_block_cases c client b s = elim (Option-cases (tip s.unconfirmed_block_cache)) [
  | inl e ↦ inr (inl (no_unconfirmed_blocks, rw (e, handle_new_block) refl))
  | inr (t, e) ↦ elim (Bool-cases (leb_ℤ b.height t.height)) [
    | inl low ↦ inl (t, e, ground (arith, low), rw (e, low, handle_new_block) refl)
    | inr high ↦ elim (Bool-cases (ltb_ℤ (next_height t.height) b.height)) [
      | inl gap ↦ inr (inl (missing_blocks, rw (e, high, gap, handle_new_block) refl))
      | inr next ↦ elim (Bool-cases (bytes_eq b.block_header.prev_block (block_hash c t))) [
        | inr other ↦ inr (inl (parent_mismatch, rw (e, high, next, other, handle_new_block) refl))
        | inl same ↦ inr (
            inr (
              t,
              e,
              (λ l. ground (arith, high, l), ltb→le _ _ next),
              bytes_eq→eq _ _ same,
              rw (e, high, next, same, handle_new_block) refl,
            ))
      ]
    ]
  ]
]
