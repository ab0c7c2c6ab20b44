-- ===== src/Server/Replies/Lengths.antt =====
-- The lengths of the proofs that are sent.
use xlayer_bridge_service.Base.{
  ℕ, suc, ◌+◌, ◌≤◌, ◌<◌, ◌⊎◌, ◌≡◌, refl, ap, List, [], ◌∷◌, ok, err, ◌>>=◌, panic, ltb, leb, length,
  arith, Bool-cases, inl, inr, get_elem?_within, ◌++◌, length-append, append_assoc,
  get_elem?_beyond,
}
use xlayer_bridge_service.Etherman.{Bytes}
use xlayer_bridge_service.Bridgectrl.MerkleTree.Defs.{at}
use xlayer_bridge_service.Server.Proofs.{ClaimProof}
use xlayer_bridge_service.Server.Replies.{pair_proofs, proof_reply}

at-skip :
    (before : List Bytes) (y : Bytes) (ys : List Bytes)
    → at (before ++ y ∷ ys) (length before) ≡ ok y
at-skip [] y ys = refl
at-skip (x ∷ before) y ys = at-skip before y ys

-- As many nodes of the rollup's proof, from the position after `before` on.
pair_proofs_lem :
    (xs before ys : List Bytes) (i : ℕ)
    → i ≡ length before
    → length xs ≤ length ys
    → (zs : List Bytes) × (rest : List Bytes) × (ys ≡ zs ++ rest)
      × (length zs ≡ length xs)
      × (pair_proofs xs (before ++ ys) i ≡ ok (xs, zs))
unfolding pair_proofs
pair_proofs_lem [] before ys i here le = ([], ys, refl, refl, refl)
pair_proofs_lem (x ∷ xs) before [] i here le = absurd (omega (arith, le))
pair_proofs_lem (x ∷ xs) before (y ∷ ys) i here le =
    let next : i + 1 ≡ length (before ++ y ∷ []) =
      omega (arith, here, length-append before (y ∷ [])) in
    let (zs, rest, split, sized, paired) =
      pair_proofs_lem xs (before ++ y ∷ []) ys (i + 1) next (omega (arith, le)) in
    let paired' : pair_proofs xs (before ++ y ∷ ys) (i + 1) ≡ ok (xs, zs) =
      rw (append_assoc before (y ∷ []) ys) at paired in
    let found : at (before ++ y ∷ ys) i ≡ ok y = rw here (at-skip before y ys) in
    (y ∷ zs, rest, ap (λ l. y ∷ l) split, ap suc sized, rw (found, ◌>>=◌, paired') refl)

pair_proofs_short :
    (xs ys : List Bytes) (i : ℕ)
    → i ≤ length ys
    → length ys < i + length xs
    → pair_proofs xs ys i ≡ err panic
unfolding pair_proofs
pair_proofs_short [] ys i le lt = absurd (omega arith)
pair_proofs_short (x ∷ xs) ys i le lt = elim (Bool-cases (ltb i (length ys))) [
  | inl inside ↦
      let (y, found) = get_elem?_within ys i (ground arith) in
      let short = pair_proofs_short xs ys (i + 1) (ground arith) (omega arith) in
      rw (found, at, ◌>>=◌, short) refl
  | inr outside_it ↦
      let none_there = get_elem?_beyond ys i (ground arith) in rw (none_there, at, ◌>>=◌) refl
]

-- The answer of GetProof and GetProofByGER, where both exit roots are there: both of
-- them, all nodes of the deposit's proof and as many from the start of the rollup's, or a panic if the rollup's proof has fewer nodes, since
-- the test of the lengths is made on lists that are still empty.
pub proof_reply_lem :
    (p : ClaimProof) (main rollup : Bytes)
    → p.global_exit_root.exit_roots ≡ main ∷ rollup ∷ []
    → ((length p.merkle_proof ≤ length p.rollup_merkle_proof)
        × (zs : List Bytes) × (rest : List Bytes) × (p.rollup_merkle_proof ≡ zs ++ rest)
        × (length zs ≡ length p.merkle_proof)
        × (proof_reply p
            ≡ ok (record {
              rollup_merkle_proof = zs;
              merkle_proof = p.merkle_proof;
              main_exit_root = main;
              rollup_exit_root = rollup;
            })))
      ⊎ (length p.rollup_merkle_proof < length p.merkle_proof) × (proof_reply p ≡ err panic)
unfolding proof_reply
proof_reply_lem p main rollup roots =
    elim (Bool-cases (leb (length p.merkle_proof) (length p.rollup_merkle_proof))) [
      | inl enough ↦
          let (zs, rest, split, sized, paired) =
            pair_proofs_lem p.merkle_proof [] p.rollup_merkle_proof 0 refl (ground arith) in
          inl (ground arith, zs, rest, split, sized, simp (paired, roots, proof_reply, ◌>>=◌) refl)
      | inr fewer ↦
          let short =
            pair_proofs_short p.merkle_proof p.rollup_merkle_proof 0 (omega arith) (ground arith) in
          inr (ground arith, simp (short, proof_reply, ◌>>=◌) refl)
    ]
