-- ===== src/Lib.antt =====
-- A model of the bridge service: the Go service that follows the bridge contracts of an L1 and of its
-- rollups, keeps the exit trees of their deposits, and sends the claims of deposits to an L2.
--
-- Base holds what the components share: tests on numbers, lists over native numbers, the result type
-- with the errors of the code, powers of two. Numbers are natural numbers; machine-width integers have
-- their wrap-around written out. Byte strings, hashes and addresses are lists of numbers.
--
-- Etherman has the types of etherman/types.go. Etherman/Logs: a node's log and what the contracts'
-- bindings, which are parameters, parse of it. Events and Read: the handlers of events, processEvent,
-- readEvents and GetRollupInfoByBlockRange of etherman/etherman.go, where the blocks are kept newest
-- first while logs are read. GlobalIndex: DecodeGlobalIndex and GenerateGlobalIndex.
--
-- Bridgectrl models bridgectrl/. Hash: Hash, generateZeroHashes and hashDeposit of hash.go. Store: the
-- interface merkleTreeStore. MerkleTree/Defs: the sparse tree in memory (NewMerkleTree, initSiblings,
-- addLeaf, resetLeaf, getRoot of merkletree.go). MerkleTree/Build: buildMTRoot, updateLeaf,
-- storeLeaves, addRollupExitLeaf, ComputeSiblings, calculateRoot. MerkleTree/Spec has the reference
-- tree, defined from the list of leaves alone. Controller: bridgectrl.go, the map from networks to
-- trees. The hash function (keccak256 of golang.org/x/crypto) is a parameter, and no property assumes
-- anything of it. The loops over the height run for `height` rounds, as in the source; the loop that
-- counts a uint8 down from height - 1 runs `rounds_down height` rounds. An index of a slice that is out
-- of range is the error `panic`.
--
-- Pgstorage models the queries of db/pgstorage/pgstorage.go that the trees use, over tables with the
-- constraints of the migrations.
--
-- Claimtxman models the groups of compressed claims of claimtxman/. Types: types/monitoredtx.go. Keyed:
-- Go maps with integer keys as association lists; the order of the list is the order of a range, and
-- the properties hold for every list. PendingTxs, Trigger, StoreChanges, Compose: the files
-- pending_txs.go (GenerateStoreUpdate is in StoreChanges), groups_trigger.go, store_changes.go and
-- compose_compress_claim.go. Monitor/Defs: what SendClaims, CheckReceipts and OutdateClaims do to one
-- group; Monitor/Round: Process over all groups and createNewGroups; Monitor/Storage: MonitorTxs with
-- its transaction. The node, the contract, the clock and the storage are parameters: a state that each
-- call may change. go-cmp's Equal is a parameter too. Texts kept of the last step are a data type.
--
-- NonceCache models nonce_cache.go, and Single the monitoring of claims that are sent one by one
-- (monitortxs.go): Single: checkTxHistory and ReviewMonitoredTx; Single/Round: MonitorTxs. The loops that
-- retry a call run on the number of retries of the configuration.
--
-- Manager models claimtxman.go: updateDepositsStatus with processDepositStatus and addClaimTx, and
-- Manager/Start the events of the loop of Start, a list of events as `select` takes them, among them that a
-- goroutine which the loop has started reads the exit root.
--
-- Synchronizer models parts of synchronizer/synchronizer.go. Reorg: checkReorg, with the answers of the
-- node and the storage fixed while it runs; its loop runs on fuel, which the number of stored blocks
-- bounds. Reset: resetState. Events: the handlers of events; Blocks: processBlockRange, which runs them in
-- the order of the events, a transaction for each block. The storage and the bridge controller are
-- interfaces; what is done round a deposit or a claim with redis (xlayer_synchronizer.go) is one too. SyncBlocks:
-- syncBlocks over an interface of what it calls, which is not filled with the models of checkReorg,
-- resetState and processBlockRange yet; its loop runs on fuel.
--
-- Server models server/service.go. Proofs: getNode, getProof, getRollupExitProof and the three functions
-- for the proofs of a claim; the node cache is a parameter of which only its documented law is used.
-- Replies: the endpoints of the REST interface, with hashes, addresses and amounts in place of their
-- texts. The loop of getProof runs `rounds_down height` rounds.
--
-- Not modelled: the servers, the caches of xlayer/, the rest
-- of the synchronizer; the XLayer variant of the claim manager; and what is only input and output or configuration.
--
-- The service runs on one goroutine per component; each of the modelled operations runs inside one
-- database transaction, so an operation takes the storage and returns it, or an error.

pub mod Base
pub mod Bridgectrl
pub mod Claimtxman
pub mod Etherman
pub mod Pgstorage
pub mod Server
pub mod Synchronizer
