-- ===== src/Tests/Storing.antt =====
-- The store's theorems on the sample database.
use staking_indexer.Prelude.{◌≡◌, arith}
use staking_indexer.Prelude.Result.{ok}
use staking_indexer.Store.Word.{
  uint64_to_bytes, uint64_from_bytes, uint64_from_bytes-uint64_to_bytes,
}
use staking_indexer.Store.Interface.{IndexerStoreLaws}
use staking_indexer.Store.Implements.{kv_store-IndexerStoreLaws}
use staking_indexer.Store.Implements.Instance.{kv_store}
use staking_indexer.Tests.Codec.{
  sample_codec, sample_proto, sample_codec-CodecLaws, sample_proto-ProtoLaws,
}
use staking_indexer.Tests.Db.{sample_db, sample_db-KvdbLaws}

kv_store-IndexerStoreLaws_example :
    IndexerStoreLaws sample_codec (kv_store sample_db sample_codec sample_proto)
kv_store-IndexerStoreLaws_example =
    kv_store-IndexerStoreLaws sample_db-KvdbLaws sample_codec-CodecLaws sample_proto-ProtoLaws

uint64_from_bytes-uint64_to_bytes_example : uint64_from_bytes (uint64_to_bytes 850000) ≡ ok 850000
uint64_from_bytes-uint64_to_bytes_example = uint64_from_bytes-uint64_to_bytes 850000 (omega arith)
