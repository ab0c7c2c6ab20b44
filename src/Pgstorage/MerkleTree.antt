-- ===== src/Pgstorage/MerkleTree.antt =====
-- db/pgstorage/pgstorage.go: the tables of the trees and the queries on them. A table is the list
-- of its rows, the oldest first; the ids of mt.rollup_exit count from 1. A query that fits several
-- rows returns the oldest. The primary keys are those of db/pgstorage/migrations/0006.sql. The
-- foreign keys and the failures of the database itself are not here.
use xlayer_bridge_service.Base.{
  ℕ, ◌+◌, ◌%◌, ◌^◌, Bool, false, ◌&&◌, ◌||◌, List, [], ◌∷◌, ◌++◌, Option, none, some, ltb, ◌==◌,
  if◌then◌else◌, Result, ok, err, Error, outside, storage_not_found, ◌>>=◌, length,
}
use xlayer_bridge_service.Etherman.{Bytes, RollupExitLeaf, bytes_eq}
use xlayer_bridge_service.Bridgectrl.Store.{MerkleTreeStore, NodeRow, LeafRow}

-- mt.root.
pub record RootRow : Type 0 where
  pub root : Bytes
  pub deposit_id : ℕ
  pub network : ℕ

-- What the trees read of sync.deposit.
pub record DepositRow : Type 0 where
  pub id : ℕ
  pub deposit_cnt : ℕ
  pub network_id : ℕ

pub record Tables : Type 0 where
  pub rht : List NodeRow
  pub roots : List RootRow
  pub deposits : List DepositRow
  pub rollup_exit : List RollupExitLeaf

find_node : Bytes → List NodeRow → Result (List Bytes)
find_node key [] = err storage_not_found
find_node key (row ∷ rows) = if bytes_eq row.key key then ok row.value else find_node key rows

unfoldable pub get : Tables → Bytes → Result (List Bytes)
unfolding find_node bytes_eq
get t key = find_node key t.rht

-- The error of a row whose primary key is taken.
abbrev unique_violation : Error
unique_violation = outside 23505

has_node : Bytes → ℕ → List NodeRow → Bool
has_node key deposit_id [] = false
has_node key deposit_id (r ∷ rs) =
    (r.deposit_id == deposit_id && bytes_eq r.key key) || has_node key deposit_id rs

-- The primary key is (key, deposit_id).
insert_nodes : List NodeRow → List NodeRow → Result (List NodeRow)
insert_nodes rht [] = ok rht
insert_nodes rht (row ∷ rows) =
    let rest = insert_nodes (rht ++ row ∷ []) rows in
    if has_node row.key row.deposit_id rht then err unique_violation else rest

unfoldable pub bulk_set : Tables → List NodeRow → Result Tables
unfolding insert_nodes has_node bytes_eq
bulk_set t rows = do rht ← insert_nodes t.rht rows; ok (record t { rht = rht })

has_root_of : ℕ → List RootRow → Bool
has_root_of deposit_id [] = false
has_root_of deposit_id (r ∷ rs) = r.deposit_id == deposit_id || has_root_of deposit_id rs

-- The primary key is deposit_id.
unfoldable pub set_root : Tables → Bytes → ℕ → ℕ → Result Tables
unfolding has_root_of
set_root t root deposit_id network =
    if has_root_of deposit_id t.roots
    then err unique_violation
    else ok (record t {
      roots = t.roots ++ record { root = root; deposit_id = deposit_id; network = network } ∷ [];
    })

-- The join of mt.root with sync.deposit.
has_deposit : ℕ → ℕ → List DepositRow → Bool
has_deposit id deposit_cnt [] = false
has_deposit id deposit_cnt (d ∷ ds) =
    (d.id == id && d.deposit_cnt == deposit_cnt) || has_deposit id deposit_cnt ds

find_root : ℕ → ℕ → List DepositRow → List RootRow → Result Bytes
find_root deposit_cnt network deposits [] = err storage_not_found
find_root deposit_cnt network deposits (r ∷ rs) =
    if r.network == network && has_deposit r.deposit_id deposit_cnt deposits
    then ok r.root
    else find_root deposit_cnt network deposits rs

unfoldable pub get_root : Tables → ℕ → ℕ → Result Bytes
unfolding find_root has_deposit
get_root t deposit_cnt network = find_root deposit_cnt network t.deposits t.roots

-- `MAX(deposit_id)` of the roots of a network.
last_deposit_id : ℕ → Option ℕ → List RootRow → Option ℕ
last_deposit_id network best [] = best
last_deposit_id network best (r ∷ rs) =
    last_deposit_id network
      (if r.network == network
        then elim best [
          | none ↦ some r.deposit_id
          | some b ↦ if ltb b r.deposit_id then some r.deposit_id else some b
        ]
        else best)
      rs

-- `MAX(deposit_cnt)` of the deposits with this id.
max_deposit_cnt : ℕ → Option ℕ → List DepositRow → Option ℕ
max_deposit_cnt id best [] = best
max_deposit_cnt id best (d ∷ ds) =
    max_deposit_cnt id
      (if d.id == id
        then elim best [
          | none ↦ some d.deposit_cnt
          | some b ↦ if ltb b d.deposit_cnt then some d.deposit_cnt else some b
        ]
        else best)
      ds

unfoldable pub get_last_deposit_count : Tables → ℕ → Result ℕ
unfolding last_deposit_id max_deposit_cnt
get_last_deposit_count t network = elim (last_deposit_id network none t.roots) [
  | none ↦ err storage_not_found
  | some id ↦ elim (max_deposit_cnt id none t.deposits) [
    | none ↦ err storage_not_found
    | some n ↦ ok (n % 2 ^ 32)
  ]
]

number_rows : ℕ → List LeafRow → List RollupExitLeaf
number_rows id [] = []
number_rows id (r ∷ rs) =
    record { id = id; block_id = r.block_id; leaf = r.leaf; rollup_id = r.rollup_id; root = r.root }
    ∷ number_rows (id + 1) rs

unfoldable pub add_rollup_exit_leaves : Tables → List LeafRow → Result Tables
unfolding number_rows
add_rollup_exit_leaves t rows =
    ok (record t { rollup_exit = t.rollup_exit ++ number_rows (length t.rollup_exit + 1) rows })

-- The rows by ascending rollup, where a later row takes the place of an earlier one.
upsert : RollupExitLeaf → List RollupExitLeaf → List RollupExitLeaf
upsert l [] = l ∷ []
upsert l (m ∷ ms) =
    if ltb l.rollup_id m.rollup_id
    then l ∷ m ∷ ms
    else (if l.rollup_id == m.rollup_id then l ∷ ms else m ∷ upsert l ms)

latest : List RollupExitLeaf → List RollupExitLeaf → List RollupExitLeaf
latest found [] = found
latest found (l ∷ ls) = latest (upsert l found) ls

unfoldable pub get_latest_rollup_exit_leaves : Tables → Result (List RollupExitLeaf)
unfolding latest upsert
get_latest_rollup_exit_leaves t = ok (latest [] t.rollup_exit)

has_root : Bytes → List RollupExitLeaf → Bool
has_root root [] = false
has_root root (l ∷ ls) = bytes_eq l.root root || has_root root ls

unfoldable pub is_rollup_exit_root : Tables → Bytes → Result Bool
unfolding has_root bytes_eq
is_rollup_exit_root t root = ok (has_root root t.rollup_exit)

-- The storage that the trees are given.
unfoldable pub merkle_tree_store : MerkleTreeStore Tables
unfolding get bulk_set get_root set_root get_last_deposit_count add_rollup_exit_leaves
    get_latest_rollup_exit_leaves is_rollup_exit_root
merkle_tree_store = record {
  get = get;
  bulk_set = bulk_set;
  get_root = get_root;
  set_root = set_root;
  get_last_deposit_count = get_last_deposit_count;
  add_rollup_exit_leaves = add_rollup_exit_leaves;
  get_latest_rollup_exit_leaves = get_latest_rollup_exit_leaves;
  is_rollup_exit_root = is_rollup_exit_root;
}
