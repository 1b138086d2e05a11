-- ===== src/Wire/Blocks.antt =====
-- types/block.go and `GetWrappedTxs` of utils/tx.go.
use staking_indexer.Prelude.{ℕ, ◌+◌, ℤ, List, [], ◌∷◌, ◌≡◌, refl, ap, map}
use staking_indexer.Wire.{MsgTx, BlockHeader, MsgBlock, Hash, Codec}

-- `btcutil.Tx`: a transaction with its position in the block.
pub record Tx : Type 0 where
  pub msg_tx : MsgTx
  pub index : ℕ

-- `Height` is an int32.
pub record IndexedBlock : Type 0 where
  pub height : ℤ
  pub header : BlockHeader
  pub txs : List Tx

wrap_from : ℕ → List MsgTx → List Tx
wrap_from i [] = []
wrap_from i (t ∷ ts) = record { msg_tx = t; index = i } ∷ wrap_from (i + 1) ts

unfoldable pub get_wrapped_txs : MsgBlock → List Tx
unfolding wrap_from
get_wrapped_txs b = wrap_from 0 b.transactions

unfoldable pub new_indexed_block : ℤ → BlockHeader → List Tx → IndexedBlock
new_indexed_block height header txs = record { height = height; header = header; txs = txs }

unfoldable pub new_indexed_block_from_msg_block : ℤ → MsgBlock → IndexedBlock
unfolding get_wrapped_txs
new_indexed_block_from_msg_block height block = record {
  height = height;
  header = block.header;
  txs = get_wrapped_txs block;
}

unfoldable pub msg_block : IndexedBlock → MsgBlock
msg_block ib = record { header = ib.header; transactions = map (λ t. t.msg_tx) ib.txs }

abbrev pub block_hash : Codec → IndexedBlock → Hash
block_hash c ib = c.block_hash ib.header

map-wrap_from : (i : ℕ) (ts : List MsgTx) → map (λ (t : Tx). t.msg_tx) (wrap_from i ts) ≡ ts
unfolding wrap_from
map-wrap_from i [] = refl
map-wrap_from i (t ∷ ts) = ap (λ l. t ∷ l) (map-wrap_from (i + 1) ts)

-- Wrapping a block with a height and taking the message block back returns the block: the header
-- and every transaction, in order.
pub msg_block-new :
    (height : ℤ) (b : MsgBlock) → msg_block (new_indexed_block_from_msg_block height b) ≡ b
unfolding msg_block new_indexed_block_from_msg_block
msg_block-new height b = rw map-wrap_from
