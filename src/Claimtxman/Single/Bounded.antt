-- ===== src/Claimtxman/Single/Bounded.antt =====
-- What a round does to one claim: it stays the same claim, and its history stays bounded.
use xlayer_bridge_service.Base.{
  ℕ, ◌-◌, ◌≤◌, ◌<◌, Bool, Option, none, some, List, [], ◌∷◌, Result, length, length-append, ◌≡◌,
  refl, ◌∙◌, arith, if_cases, Bool-cases, Result-cases, inl, inr,
}
use xlayer_bridge_service.Etherman.{Bytes, bytes_eq}
use xlayer_bridge_service.Claimtxman.Types.{MonitoredTx, add_history, remove_history, in_history}
use xlayer_bridge_service.Claimtxman.NonceCache.{NonceLru, get_next_nonce}
use xlayer_bridge_service.Claimtxman.Single.{
  SignedTx, L2Node, SingleConfig, review_monitored_tx, estimate, with_gas, with_nonce,
}
use xlayer_bridge_service.Claimtxman.Single.Round.{recorded}

-- The same claim, with no lower nonce and gas, and a history of at most `bound` transactions.
pub record IsNext (bound : ℕ) (tx tx' : MonitoredTx) : Type 0 where
  pub same_id : tx'.deposit_id ≡ tx.deposit_id
  pub same_from : tx'.from ≡ tx.from
  pub same_to : tx'.to ≡ tx.to
  pub same_value : tx'.value ≡ tx.value
  pub same_data : tx'.data_of ≡ tx.data_of
  pub nonce_le : tx.nonce ≤ tx'.nonce
  pub gas_le : tx.gas ≤ tx'.gas
  pub bounded : length tx'.history ≤ bound

pub IsNext-trans :
    {n m : ℕ} {tx tx' tx'' : MonitoredTx} → IsNext n tx tx' → IsNext m tx' tx'' → IsNext m tx tx''
IsNext-trans a b = record {
  same_id = b.same_id ∙ a.same_id;
  same_from = b.same_from ∙ a.same_from;
  same_to = b.same_to ∙ a.same_to;
  same_value = b.same_value ∙ a.same_value;
  same_data = b.same_data ∙ a.same_data;
  nonce_le = omega (arith, a.nonce_le, b.nonce_le);
  gas_le = omega (arith, a.gas_le, b.gas_le);
  bounded = b.bounded;
}

-- Nothing that matters here changes, but perhaps the history.
pub same_claim : (tx : MonitoredTx) (n : ℕ) → length tx.history ≤ n → IsNext n tx tx
same_claim tx n le = record {
  same_id = refl;
  same_from = refl;
  same_to = refl;
  same_value = refl;
  same_data = refl;
  nonce_le = omega arith;
  gas_le = omega arith;
  bounded = le;
}

without_le :
    (tx : MonitoredTx) (h : Bytes) (xs : List Bytes)
    → length (remove_history (record tx { history = xs }) h).history ≤ length xs
unfolding remove_history
without_le tx h [] = omega arith
without_le tx h (x ∷ xs) = elim (Bool-cases (bytes_eq x h)) [
  | inl same ↦ rw (same, remove_history) (omega (arith, without_le tx h xs))
  | inr other ↦ rw (other, remove_history) (omega (arith, without_le tx h xs))
]

pub remove_history-IsNext :
    (tx : MonitoredTx) (h : Bytes) (n : ℕ)
    → length tx.history ≤ n
    → IsNext n tx (remove_history tx h)
unfolding remove_history
remove_history-IsNext tx h n le = record {
  same_id = refl;
  same_from = refl;
  same_to = refl;
  same_value = refl;
  same_data = refl;
  nonce_le = omega arith;
  gas_le = omega arith;
  bounded = omega (arith, without_le tx h tx.history, le);
}

pub recorded-IsNext :
    (tx : MonitoredTx) (signed : SignedTx) (n : ℕ)
    → length tx.history < n
    → IsNext n tx (recorded tx signed)
unfolding add_history
recorded-IsNext tx signed n lt = elim (Bool-cases (in_history signed.hash_of tx.history)) [
  | inl known ↦ rw (known, recorded) (same_claim tx n (omega arith))
  | inr fresh ↦
      rw (fresh, recorded)
        (record {
          same_id = refl;
          same_from = refl;
          same_to = refl;
          same_value = refl;
          same_data = refl;
          nonce_le = omega arith;
          gas_le = omega arith;
          bounded = omega (arith, length-append tx.history (signed.hash_of ∷ []));
        })
]

-- Of what is to be stored, if anything.
abbrev pub IfStored : (MonitoredTx → Type 0) → Option MonitoredTx → Type 0
IfStored P none = Unit {0}
IfStored P (some tx) = P tx

module _ {W C : Type 0} (node : L2Node W) (lru : NonceLru C) (cfg : SingleConfig) where
  with_gas_nonce :
      (tx : MonitoredTx) (gas nonce n : ℕ)
      → length tx.history ≤ n
      → IsNext n tx (with_nonce node lru cfg (with_gas node lru cfg tx gas) nonce)
  with_gas_nonce tx gas nonce n le = record {
    same_id = refl;
    same_from = refl;
    same_to = refl;
    same_value = refl;
    same_data = refl;
    nonce_le = ground arith;
    gas_le = ground arith;
    bounded = le;
  }

  with_gas-IsNext :
      (tx : MonitoredTx) (gas n : ℕ)
      → length tx.history ≤ n
      → IsNext n tx (with_gas node lru cfg tx gas)
  with_gas-IsNext tx gas n le = record {
    same_id = refl;
    same_from = refl;
    same_to = refl;
    same_value = refl;
    same_data = refl;
    nonce_le = omega arith;
    gas_le = ground arith;
    bounded = le;
  }

  pub review-IsNext :
      (w : W) (c : C) (tx : MonitoredTx) (review_nonce : Bool) (n : ℕ)
      → length tx.history ≤ n
      → IsNext n tx (review_monitored_tx node lru cfg w c tx review_nonce).2
  unfolding review_monitored_tx
  review-IsNext w c tx review_nonce n le =
      elim (Result-cases (estimate node (cfg.retry_number - 1) w tx).1) [
        | inr (e, unknown) ↦ rw (unknown, review_monitored_tx) (same_claim tx n le)
        | inl (gas, found) ↦
            rw (found, review_monitored_tx)
              (if_cases (λ (r : W × C × MonitoredTx × Result (Unit {0})). IsNext n tx r.2)
                review_nonce
                (λ asked.
                  elim (Result-cases
                    (get_next_nonce node.nonce_at lru (estimate node (cfg.retry_number - 1) w tx).0
                      c tx.from).2) [
                        | inr (e, no_nonce) ↦ rw no_nonce (with_gas-IsNext tx gas n le)
                        | inl (nonce, given) ↦ rw given (with_gas_nonce tx gas nonce n le)
                      ])
                (λ not_asked. with_gas-IsNext tx gas n le))
      ]
