-- ===== src/Indexer/Process/Replay.antt =====
-- Processing a staking transaction again: what happens when the indexer restarts.
use staking_indexer.Prelude.{
  ℕ, ◌%◌, ◌^◌, ℤ, to_u64, Bool, Bytes, none, some, [], ◌∷◌, ◌++◌, ◌≡◌, ◌≢◌, ◌⊎◌, ◌∙◌, refl, ap, inl,
  inr,
}
use staking_indexer.Prelude.Result.{ok, Result-cases}
use staking_indexer.Wire.{MsgTx}
use staking_indexer.Store.Record.{StoredStakingTransaction}
use staking_indexer.Indexer.Types.{
  StakingIndexer, World, Event, Params, ParsedStakingTx, active_staking,
}
use staking_indexer.Indexer.Exec.{◌>>=◌}
use staking_indexer.Indexer.Hex.{hex_encode}
use staking_indexer.Indexer.Process.{
  process_staking_tx, add_staking_transaction, stored_staking_tx, staking_event, get_tx_hex,
}
use staking_indexer.Indexer.Refines.Writes.{announce, announce_exact, add_staking_cases}
use staking_indexer.Indexer.Ledger.Laws.{IndexerLaws}

module _ (si : StakingIndexer) (tx : MsgTx) (d : ParsedStakingTx) (height : ℕ) (timestamp : ℤ) where
  -- The event of a staking transaction with an overflow flag and the bytes of the transaction, field by
  -- field.
  abbrev pub event_with : Bool → Bytes → Event
  event_with overflow bytes = active_staking (record {
    staking_tx_hash_hex = si.codec.hash_string (si.codec.tx_hash tx);
    staker_pk_hex = hex_encode (si.codec.serialize_pub_key d.staker_public_key);
    finality_provider_pk_hex =
        hex_encode (si.codec.serialize_pub_key d.finality_provider_public_key);
    staking_value = to_u64 d.staking_output.value;
    staking_start_height = height;
    staking_start_timestamp = timestamp;
    staking_time_lock = d.staking_time % 2 ^ 32;
    staking_output_index = d.staking_output_idx % 2 ^ 32;
    staking_tx_hex = hex_encode bytes;
    is_overflow = overflow;
  })

module _ {si : StakingIndexer} (laws : IndexerLaws si) (tx : MsgTx) (d : ParsedStakingTx)
    (height : ℕ) (timestamp : ℤ) (params : Params) (w : World si) where
  get_tx_hex-bytes :
      (bytes : Bytes) → si.codec.serialize tx ≡ ok bytes → get_tx_hex si tx ≡ ok (hex_encode bytes)
  unfolding get_tx_hex
  get_tx_hex-bytes bytes q = rw (q, get_tx_hex) refl

  with_bytes {κ} :
      {P : Type κ} (hex : Bytes)
      → get_tx_hex si tx ≡ ok hex
      → ((bytes : Bytes) → si.codec.serialize tx ≡ ok bytes → hex ≡ hex_encode bytes → P)
      → P
  unfolding get_tx_hex
  with_bytes hex h k = elim (Result-cases (si.codec.serialize tx)) [
    | inl (b, q) ↦ k b q (cc (rw (q, get_tx_hex) at h))
    | inr (inl (x, q)) ↦ absurd (cc (rw (q, get_tx_hex) at h))
    | inr (inr q) ↦ absurd (cc (rw (q, get_tx_hex) at h))
  ]

  -- A staking transaction that is stored already is announced again, with the overflow flag of its
  -- record and not one of the present TVL, where its bytes can be made and the consumer takes the event;
  -- else nothing is announced, and the processing does not succeed. The database stays as it was, also
  -- where the transaction is no longer valid under the parameters.
  pub process_staking_tx_replay :
      (old : StoredStakingTransaction)
      → si.store.get_staking_transaction (si.codec.tx_hash tx) w.db ≡ ok (some old)
      → let run = process_staking_tx si tx d height timestamp params w in
        let event = event_with si tx d height timestamp old.is_overflow in
        (run.1.db ≡ w.db)
        × (((bytes : Bytes) × (si.codec.serialize tx ≡ ok bytes)
              × (si.push (event bytes) w.sent ≡ none)
              × (run.1.sent ≡ w.sent ++ event bytes ∷ []))
            ⊎ (((bytes : Bytes)
                  → si.codec.serialize tx ≡ ok bytes
                  → si.push (event bytes) w.sent ≢ none)
                × (run.0 ≢ ok tt)
                × (run.1.sent ≡ w.sent)))
  unfolding process_staking_tx add_staking_transaction announce ◌>>=◌ stored_staking_tx
      staking_event
  process_staking_tx_replay old e =
      let st = stored_staking_tx si tx d height old.is_overflow in
      rw (e, process_staking_tx)
        (elim (announce_exact {si = si} (get_tx_hex si tx) (staking_event si st timestamp)
          (si.store.add_staking_transaction st) w) [
            | inl (hex, h, taken, new) ↦ with_bytes hex h λ bytes q same.
                elim (add_staking_cases laws st w.db) [
                  | inl a ↦ let gone = a.was_absent in cc
                  | inr kept ↦ (
                    ap (λ (x : World si). x.db) new ∙ kept,
                    inl (
                      bytes,
                      q,
                      rw same at taken,
                      rw same at (ap (λ (x : World si). x.sent) new),
                    ),
                  )
                ]
            | inr (refused, fails, same) ↦ (
              ap (λ (x : World si). x.db) same,
              inr (
                λ bytes q. refused (hex_encode bytes) (get_tx_hex-bytes bytes q),
                fails,
                ap (λ (x : World si). x.sent) same,
              ),
            )
          ])
