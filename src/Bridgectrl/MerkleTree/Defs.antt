-- ===== src/Bridgectrl/MerkleTree/Defs.antt =====
-- bridgectrl/merkletree.go: the tree of the deposits of one network.
-- A `[KeyLen]byte` is a list of 32 bytes, so that the copies between arrays are identities.
use xlayer_bridge_service.Base.{
  ℕ, zero, suc, ◌+◌, ◌-◌, ◌/◌, ◌%◌, ◌^◌, Bool, true, false, List, [], ◌∷◌, ◌++◌, map, none, some,
  ◌==◌, if◌then◌else◌, Result, ok, err, storage_not_found, mismatched_deposit_count, panic, ◌>>=◌,
  get_elem?, get_or, set,
}
use mathlib.Core.List.{reverse}
use xlayer_bridge_service.Etherman.{Bytes, zero_digest}
use xlayer_bridge_service.Bridgectrl.Hash.{hash, zero_hash}
use xlayer_bridge_service.Bridgectrl.Store.{MerkleTreeStore, NodeRow}

pub record MerkleTree : Type 0 where
  pub network_id : ℕ
  pub height : ℕ  -- uint8
  pub count : ℕ  -- uint32
  pub siblings : List Bytes

-- `index & (1 << h) > 0`.
abbrev pub bit : ℕ → ℕ → Bool
bit index h = (index / 2 ^ h) % 2 == 1

-- `xs[i]`, which panics out of range.
abbrev pub at {ℓ} : {A : Type ℓ} → List A → ℕ → Result A
at xs i = elim (get_elem? xs i) [ none ↦ err panic | some x ↦ ok x ]

-- `int(height - 1)` in uint8, down to 0, makes so many rounds.
abbrev pub rounds_down : ℕ → ℕ
rounds_down height = (height + 255) % 256 + 1

-- A parent with its two children.
pub record Node : Type 0 where
  pub parent : Bytes
  pub left : Bytes
  pub right : Bytes

abbrev pub row : ℕ → Node → NodeRow
row deposit_id n = record { key = n.parent; value = n.left ∷ n.right ∷ []; deposit_id = deposit_id }

-- The variables of the loop of `addLeaf`.
pub record Climb : Type 0 where
  pub cur : Bytes
  pub is_filled_sub_tree : Bool
  pub siblings : List Bytes
  pub leaves : List Node

module _ (keccak : Bytes → Bytes) where
  -- One round of that loop, at level h.
  unfoldable pub add_level : ℕ → ℕ → Climb → Climb
  add_level index h c =
      if bit index h
      then record c {
        cur = hash keccak (sibling ∷ c.cur ∷ []);
        leaves =
            c.leaves
            ++ record { parent = hash keccak (sibling ∷ c.cur ∷ []); left = sibling; right = c.cur }
              ∷ [];
      }
      else record {
        cur = hash keccak (c.cur ∷ zero_hash keccak h ∷ []);
        is_filled_sub_tree = false;
        siblings = if c.is_filled_sub_tree then set c.siblings h c.cur else c.siblings;
        leaves =
            c.leaves
            ++ record {
              parent = hash keccak (c.cur ∷ zero_hash keccak h ∷ []);
              left = c.cur;
              right = zero_hash keccak h;
            }
              ∷ [];
      }
    where
      sibling : Bytes
      sibling = get_or c.siblings h zero_digest

  -- `rounds` levels from level h upwards.
  unfoldable pub add_levels : ℕ → ℕ → ℕ → Climb → Climb
  add_levels zero h index c = c
  add_levels (suc rounds) h index c = add_levels rounds (h + 1) index (add_level index h c)

  abbrev pub climb : MerkleTree → Bytes → ℕ → Climb
  climb mt leaf index =
      add_levels mt.height 0 index
        (record { cur = leaf; is_filled_sub_tree = true; siblings = mt.siblings; leaves = [] })

  module _ {S : Type 0} (store : MerkleTreeStore S) where
    -- The storage calls of `addLeaf`.
    unfoldable pub store_climb : S → MerkleTree → ℕ → Climb → Result S
    store_climb db mt deposit_id c = do
      db' ← store.set_root db c.cur deposit_id mt.network_id
      store.bulk_set db' (map (row deposit_id) c.leaves)

    unfoldable pub after_climb : MerkleTree → Climb → Result S → MerkleTree × Result S
    after_climb mt c (ok db) =
        (record mt { count = (mt.count + 1) % 2 ^ 32; siblings = c.siblings }, ok db)
    after_climb mt c (err e) = (record mt { siblings = c.siblings }, err e)

    -- The siblings change in place, also where the storage then fails.
    unfoldable pub add_leaf : S → MerkleTree → ℕ → Bytes → ℕ → MerkleTree × Result S
    unfolding after_climb
    add_leaf db mt deposit_id leaf index =
        let c = climb mt leaf index in
        if index == mt.count
        then after_climb mt c (store_climb db mt deposit_id c)
        else (mt, err mismatched_deposit_count)

    unfoldable pub get_root : S → MerkleTree → Result Bytes
    get_root db mt =
        if mt.count == 0
        then ok (zero_hash keccak mt.height)
        else store.get_root db (mt.count - 1) mt.network_id

    -- The levels below level h, on the way down to the leaf `index`.
    unfoldable pub descend : ℕ → S → ℕ → Bytes → List Bytes → Result (List Bytes)
    descend zero db index cur siblings = ok siblings
    descend (suc h) db index cur siblings = do
      value ← store.get db cur
      left ← at value 0
      next ← if bit index h then at value 1 else at value 0
      descend h db index next (siblings ++ left ∷ [])

    -- `zeroHashes[0 .. height - 1]`.
    unfoldable pub zero_siblings : ℕ → List Bytes
    zero_siblings zero = []
    zero_siblings (suc h) = zero_siblings h ++ zero_hash keccak h ∷ []

    stored_siblings : S → MerkleTree → Result (List Bytes)
    unfolding get_root descend
    stored_siblings db mt = do
      root ← get_root db mt
      siblings ← descend (rounds_down mt.height) db (mt.count - 1) root []
      ok (reverse siblings)

    unfoldable pub init_siblings : S → MerkleTree → Result (List Bytes)
    unfolding stored_siblings zero_siblings
    init_siblings db mt =
        if mt.count == 0 then ok (zero_siblings mt.height) else stored_siblings db mt

    -- On an error the siblings become nil, as the assignment in the source has it.
    with_siblings : MerkleTree → Result (List Bytes) → MerkleTree × Result (Unit {0})
    with_siblings mt (ok siblings) = (record mt { siblings = siblings }, ok tt)
    with_siblings mt (err e) = (record mt { siblings = [] }, err e)

    unfoldable pub reset_leaf : S → MerkleTree → ℕ → MerkleTree × Result (Unit {0})
    unfolding with_siblings init_siblings
    reset_leaf db mt deposit_count =
        let mt' : MerkleTree = record mt { count = deposit_count } in
        with_siblings mt' (init_siblings db mt')

    -- `GetLastDepositCount`: no deposit yet is no error.
    next_deposit_count : Result ℕ → Result ℕ
    next_deposit_count (ok n) = ok ((n + 1) % 2 ^ 32)
    next_deposit_count (err storage_not_found) = ok 0
    next_deposit_count (err e) = err e

    unfoldable pub new_merkle_tree : S → ℕ → ℕ → Result MerkleTree
    unfolding next_deposit_count init_siblings
    new_merkle_tree db height network_id = do
      count ← next_deposit_count (store.get_last_deposit_count db network_id)
      let mt : MerkleTree = record {
        network_id = network_id;
        height = height;
        count = count;
        siblings = [];
      }
      siblings ← init_siblings db mt
      ok (record mt { siblings = siblings })
