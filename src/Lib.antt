-- ===== src/Lib.antt =====
-- The staking indexer follows the Bitcoin chain, finds the staking, unbonding and withdrawal
-- transactions of its confirmed blocks, announces each as an event on a queue, and keeps the
-- staking and unbonding transactions and the confirmed total value locked (TVL) in a key-value
-- store.
--
-- The parts, and the files that model them:
-- - Prelude: numbers, integers, words, lists, and `Result`, Go's `(value, error)` with the panic that
--   ends the process as a third case. Errors are known by their cause, which `errors.Is` sees.
-- - Wire: the structs of btcd that the code reads. Wire/Blocks: types/block.go, and GetWrappedTxs of
--   utils/tx.go. The hashing, serialising and key functions of the libraries are the parameter
--   `Codec`, with `CodecLaws`.
-- - Kvdb: lnd's key-value database as a parameter, with its documented laws.
-- - Store: indexerstore/indexer_store.go. Store/Record has the records, the messages of
--   proto/transaction.proto and the conversions; Store/Staking, Store/Unbonding, Store/Tvl,
--   Store/Height and Store/Word the methods. Store/Interface says what the indexer uses of a store,
--   and Store/Implements that the store over kvdb provides it.
-- - Indexer: indexer/indexer.go, over any store. Indexer/Types has the values that it works on, with
--   the btcstaking library, the parameters by height and the consumer as parameters; Indexer/Exec the
--   actions over the database and the events; Indexer/StartHeight, Staking, Spending, Spent, Process
--   and Block the methods, each under the name of the method. Indexer/Tally is the TVL of unconfirmed
--   blocks, Indexer/Unconfirmed their processing and the rounds of blocksEventLoop, and Indexer/Stream
--   looks at the confirmed blocks of all updates as one stream. Indexer/Ledger is the abstract view, a
--   step relation, with its invariants; Indexer/Refines shows that the methods take its steps only,
--   and Indexer/History puts the two together. Indexer/Block/Steps lifts a relation that the leaves keep
--   to the handlers of blocks, and Indexer/Settled uses it for blocks that are handled again, as they
--   are after a restart.
-- - Scanner: btcscanner/. Scanner/Cache is the cache of unconfirmed blocks of btc_cache.go, and
--   Scanner/Poller has Bootstrap, HandleNewBlock and commitChainUpdate of btc_scanner.go and
--   block_handler.go, with the Bitcoin client's answers during one call as a parameter. The indexer
--   gets the confirmed blocks of the updates that the poller sent. Scanner/Chain says how blocks are
--   linked by the hashes of their parents, with the outcomes of the operations and the invariant, and
--   Scanner/EventLoop is the life of the poller: NewBTCScanner, Start and blockEventLoop.
--   Scanner/Notifier is NewBTCNotifier of btc_notifier.go.
-- - BtcClient: btcclient/client.go, over the retry library and the node as parameters, and
--   BtcHeaderInfoList of cmd/sid/cli/btc_headers.go.
-- - Config: config/, the validation, defaults and paths, LoadConfig over the parser of go-flags as a
--   parameter, and what is handed to rpcclient, kvdb and the queue client.
-- - Params: params/params.go, over the parser of the networks library as a parameter.
-- - Files: utils/path.go, over the file system and the environment as parameters. Log: log/log.go.
-- - Command: cmd/sid/cli/init.go, start.go, up to the run of the server, and btc_headers.go, with
--   NewBTCClient, NewStakingIndexer and NewIndexerStore. Command/Host has the libraries that the
--   commands call; Command/Roundtrip relates init and LoadConfig, Command/Launched is about what start
--   makes, and Command/Whole about what that does when it runs.
-- - Server: RunUntilShutdown of server/server.go, as the sequence of the calls that it makes.
-- - System: Start of indexer/indexer.go, and the indexer over the scanner and the Bitcoin client.
-- - Tests: a concrete node, and the theorems applied to it.
--
-- The loops of the modelled methods run over lists, or over the number of heights that is left, so
-- no fuel is needed; that of Bootstrap would not end at a tip of 2 ^ 64 - 1, where its counter
-- wraps. `uint64` values are natural numbers with the wrap-around written out, `int64` amounts are
-- integers that are wrapped after arithmetic. A transaction function of kvdb returns the state
-- that it leaves; what happens to it on an error is a law of `batch`.
--
-- Not modelled: the definition of the command line, which calls its library only; the metrics of the
-- indexer and the scanner and the Prometheus server, which no other part reads; the log lines and the
-- encoders of the logger; IsTxProcessed, which is TxExists of the store; the stop of the poller and of the indexer by their quit channels, the registration of the block
-- notifier, and the goroutines, channels and locks, of which only the order of the calls remains; the
-- tests and their tools. A block epoch and the answers of the Bitcoin client while
-- it is handled are given from outside, in any order.
pub mod Prelude
pub mod Wire
pub mod Kvdb
pub mod Store
pub mod BtcClient
pub mod Config
pub mod Files
pub mod Log
pub mod Params
pub mod Command
pub mod Server
pub mod Indexer
pub mod Scanner
pub mod System
pub mod Tests
