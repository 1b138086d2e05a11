-- ===== src/Wire.antt =====
-- The Bitcoin values that the code reads (btcd's wire and btcutil structs, field by field), the
-- indexed block of types/block.go, and `Codec`: the hashing, serialising and key functions of the
-- libraries, which are parameters.
pub mod Blocks
use staking_indexer.Prelude.{ℕ, ℤ, Bytes, List, ◌≡◌, length, ◌≢◌}
use staking_indexer.Prelude.Result.{Result, ok, err, transaction_not_found}

-- `chainhash.Hash`, a [32]byte.
abbrev pub Hash : Type 0
Hash = Bytes

pub record OutPoint : Type 0 where
  pub hash : Hash
  pub index : ℕ

pub record TxIn : Type 0 where
  pub previous_out_point : OutPoint
  pub signature_script : Bytes
  pub witness : List Bytes
  pub sequence : ℕ

pub record TxOut : Type 0 where
  pub value : ℤ
  pub pk_script : Bytes

pub record MsgTx : Type 0 where
  pub version : ℤ
  pub tx_in : List TxIn
  pub tx_out : List TxOut
  pub lock_time : ℕ

-- The timestamp is in Unix seconds.
pub record BlockHeader : Type 0 where
  pub version : ℤ
  pub prev_block : Hash
  pub merkle_root : Hash
  pub timestamp : ℤ
  pub bits : ℕ
  pub nonce : ℕ

pub record MsgBlock : Type 0 where
  pub header : BlockHeader
  pub transactions : List MsgTx

-- `btcec.PublicKey`, an affine point.
pub record PublicKey : Type 0 where
  pub x : ℕ
  pub y : ℕ

-- Library functions: `TxHash`, `BlockHash`, `Serialize`, `Deserialize`, `schnorr.SerializePubKey`,
-- `schnorr.ParsePubKey`, `chainhash.NewHash`, `Hash.String`.
pub record Codec : Type 0 where
  pub tx_hash : MsgTx → Hash
  pub block_hash : BlockHeader → Hash
  pub serialize : MsgTx → Result Bytes
  pub deserialize : Bytes → Result MsgTx
  pub serialize_pub_key : PublicKey → Bytes
  pub parse_pub_key : Bytes → Result PublicKey
  pub new_hash : Bytes → Result Hash
  pub hash_string : Hash → Bytes

-- A key that came out of `schnorr.ParsePubKey`: only such a key survives its 32-byte encoding,
-- which drops the parity of `y`.
abbrev pub IsXOnly : Codec → PublicKey → Type 0
IsXOnly c pk = (b : Bytes) × (c.parse_pub_key b ≡ ok pk)

-- What the code relies on. A transaction that was serialised is read back; an x-only key is
-- serialised to the bytes that it was parsed from; a hash of 32 bytes is accepted as it is.
-- The errors of the libraries are not the store's own.
pub record CodecLaws (c : Codec) : Type 0 where
  pub deserialize-serialize :
      (tx : MsgTx) (b : Bytes) → c.serialize tx ≡ ok b → c.deserialize b ≡ ok tx
  pub serialize-parse :
      (b : Bytes) (pk : PublicKey) → c.parse_pub_key b ≡ ok pk → c.serialize_pub_key pk ≡ b
  pub length-tx_hash : (tx : MsgTx) → length (c.tx_hash tx) ≡ 32
  pub new_hash_lem : (b : Bytes) → length b ≡ 32 → c.new_hash b ≡ ok b
  pub deserialize-known_error : (b : Bytes) → c.deserialize b ≢ err transaction_not_found
  pub parse-known_error : (b : Bytes) → c.parse_pub_key b ≢ err transaction_not_found
