-- ===== src/Payroll/Run/Commitments.antt =====
-- The loop of `run_payroll` over the commitments: it records each once, and fails on a repetition.
use paymage.Base.{◌≡◌, none, List, [], ◌∷◌, ◌++◌, Map, insert, arith}
use mathlib.Core.List.{append-nil, append_assoc}
use paymage.Host.Outcome.{ok, >>=-elim}
use paymage.Host.Interface.{U256, Bytes}
use paymage.Payroll.State.{CommitmentRecord, World}
use paymage.Payroll.Run.Effects.{record_commitment, record_commitments}

abbrev pub ids : List (U256 × Bytes) → List U256
ids [] = []
ids ((id, cid) ∷ rest) = id ∷ ids rest

-- The records of a batch, added to those that are there.
abbrev pub add_records : List (U256 × Bytes) → Map CommitmentRecord → Map CommitmentRecord
add_records [] m = m
add_records ((id, cid) ∷ rest) m =
    add_records rest (insert id (record { commitment_id = id; ipfs_cid = cid }) m)

-- No commitment of the batch is recorded yet, and none stands in it twice.
abbrev pub FreshBatch : List (U256 × Bytes) → Map CommitmentRecord → Type 0
FreshBatch [] m = Unit
FreshBatch ((id, cid) ∷ rest) m =
    (m id ≡ none) × FreshBatch rest (insert id (record { commitment_id = id; ipfs_cid = cid }) m)

module _ {L : Type 0} where
  abbrev pub with_records : Map CommitmentRecord → World L → World L
  with_records m w = record w { store = record (w.store) { commitment_record = m } }

  pub record_commitment_lem :
      (id : U256) (cid : Bytes) (w w' : World L)
      → record_commitment id cid w ≡ ok tt w'
      → (w.store.commitment_record id ≡ none)
        × (w'
            ≡ with_records
                (insert id
                  (record { commitment_id = id; ipfs_cid = cid })
                  w.store.commitment_record)
                w)
  unfolding record_commitment
  record_commitment_lem id cid w w' h = ground arith

  pub record_commitments_lem :
      (cids : List (U256 × Bytes)) (pushed out : List U256) (w w' : World L)
      → record_commitments cids pushed w ≡ ok out w'
      → (out ≡ pushed ++ ids cids)
        × FreshBatch cids w.store.commitment_record
        × (w' ≡ with_records (add_records cids w.store.commitment_record) w)
  unfolding record_commitments
  record_commitments_lem [] pushed out w w' h = ground (arith, append-nil pushed)
  record_commitments_lem ((id, cid) ∷ rest) pushed out w w' h =
      >>=-elim (record_commitment id cid) _ h λ _ w₁ e₁ h₁. ground (
        arith,
        record_commitment_lem id cid w w₁ e₁,
        record_commitments_lem rest (pushed ++ (id ∷ [])) out w₁ w' h₁,
        append_assoc pushed (id ∷ []) (ids rest),
      )

  pub record_commitments-of_fresh :
      (cids : List (U256 × Bytes)) (pushed : List U256) (w : World L)
      → FreshBatch cids w.store.commitment_record
      → record_commitments cids pushed w
        ≡ ok (pushed ++ ids cids) (with_records (add_records cids w.store.commitment_record) w)
  unfolding record_commitments record_commitment
  record_commitments-of_fresh [] pushed w f = ground (arith, append-nil pushed)
  record_commitments-of_fresh ((id, cid) ∷ rest) pushed w f = ground (
    arith,
    record_commitments-of_fresh rest (pushed ++ (id ∷ []))
        (with_records
          (insert id (record { commitment_id = id; ipfs_cid = cid }) w.store.commitment_record) w)
        f.1,
    append_assoc pushed (id ∷ []) (ids rest),
  )
