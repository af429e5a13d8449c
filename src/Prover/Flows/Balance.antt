-- ===== src/Prover/Flows/Balance.antt =====
-- A transaction that is built keeps the balance, and carries the public amount that the pool computes.
use paymage.Base.{
  ℕ, zero, suc, ◌+◌, ◌-◌, ◌^◌, ◌==◌, ◌≡◌, ◌≤◌, not, ltb, Bool, true, some, none, List, [], ◌∷◌,
  ◌++◌, length, sum, map, pos, negsuc, pos_part, neg_part, arith, ap, sym, ◌∙◌, get_or,
  Option-cases, inl, inr, length-append,
}
use paymage.Host.Outcome.{ok, ok_or, fail_if, >>=-elim}
use paymage.Host.Interface.{U256, i128_max}
use paymage.Planner.Amounts.{NoteAmount, ExtAmount, checked_add, checked_neg}
use paymage.Planner.Facts.{ok_or-some, checked_add-some}
use paymage.Field.Defs.{from_ext, to_note}
use paymage.Field.Laws.{from_ext-calculate_public_amount}
use paymage.Pool.State.{ExtData, World}
use paymage.Pool.Amounts.Defs.{calculate_public_amount}
use paymage.Prover.Flows.Defs.{
  TransactInputNote, TransactOutput, TransactParams, TransactArtifacts, Crypto, n_inputs, n_outputs,
}
use paymage.Prover.Flows.Build.{
  sum_note_amounts, input_amounts, output_amounts, balanced, dummy_inputs, dummy_outputs,
  check_paths, check_recipients, check_params, fill_slots, encrypt_outputs, nullifier_of,
  output_commitment, transact,
}

sum_note_amounts-sum :
    (xs : List NoteAmount) (a s : ℕ) → sum_note_amounts a xs ≡ some s → s ≡ a + sum xs
unfolding sum_note_amounts
sum_note_amounts-sum [] a s h = ground arith
sum_note_amounts-sum (x ∷ xs) a s h = elim (Option-cases (checked_add a x)) [
  | inl over ↦ let no : none ≡ some s = rw (sum_note_amounts, over) at h in cc
  | inr (t, e) ↦
      let rest : sum_note_amounts t xs ≡ some s = rw (sum_note_amounts, e) at h in
      omega (arith, sum_note_amounts-sum xs t s rest, (checked_add-some a x t e).0)
]

balanced-true :
    (v : ExtAmount) (i o : ℕ) (rs : List U256) {rs' : List U256} {b : Bool}
    → balanced v i o rs ≡ ok b rs'
    → b ≡ true
    → i + pos_part v ≡ o + neg_part v
unfolding balanced checked_add checked_neg to_note
balanced-true (pos n) i o rs h t = ground arith
balanced-true (negsuc n) i o rs h t = ground arith

sum-input_amounts :
    (xs ys : List TransactInputNote)
    → sum (input_amounts (xs ++ ys)) ≡ sum (input_amounts xs) + sum (input_amounts ys)
sum-input_amounts [] ys = omega arith
sum-input_amounts (x ∷ xs) ys = omega (arith, sum-input_amounts xs ys)

sum-output_amounts :
    (xs ys : List TransactOutput)
    → sum (output_amounts (xs ++ ys)) ≡ sum (output_amounts xs) + sum (output_amounts ys)
sum-output_amounts [] ys = omega arith
sum-output_amounts (x ∷ xs) ys = omega (arith, sum-output_amounts xs ys)

dummy_inputs-zero :
    (d n : ℕ) (rs : List U256) {rs' : List U256} {xs : List TransactInputNote}
    → dummy_inputs d n rs ≡ ok xs rs'
    → (length xs ≡ n) × (sum (input_amounts xs) ≡ 0)
unfolding dummy_inputs
dummy_inputs-zero d zero rs h = ground arith
dummy_inputs-zero d (suc n) [] h = cc
dummy_inputs-zero d (suc n) (r ∷ rs) h = >>=-elim (dummy_inputs d n) _ h λ rest r₂ e₂ h₂.
    let (len, empties) = dummy_inputs-zero d n rs e₂ in ground (arith, len, empties)

dummy_outputs-zero :
    (n : ℕ) (rs : List U256) {rs' : List U256} {xs : List TransactOutput}
    → dummy_outputs n rs ≡ ok xs rs'
    → (length xs ≡ n) × (sum (output_amounts xs) ≡ 0)
unfolding dummy_outputs
dummy_outputs-zero zero rs h = ground arith
dummy_outputs-zero (suc n) [] h = cc
dummy_outputs-zero (suc n) (r ∷ rs) h =
    >>=-elim (dummy_outputs n) _ h λ rest r₂ e₂ h₂.
      let (len, empties) = dummy_outputs-zero n rs e₂ in ground (arith, len, empties)

module _ (crypto : Crypto) where
  check_params-balance :
      (p : TransactParams) (rs : List U256) {rs' : List U256} {u : Unit}
      → check_params crypto p rs ≡ ok u rs'
      → (length p.outputs ≤ 2)
        × (sum (input_amounts p.inputs) + pos_part p.ext_amount
            ≡ sum (output_amounts p.outputs) + neg_part p.ext_amount)
  unfolding check_params
  check_params-balance p rs h = >>=-elim (fail_if (p.tree_depth == 0) tt) _ h λ u₁ r₁ e₁ h₁.
      >>=-elim (fail_if (p.smt_depth == 0) tt) _ h₁ λ u₂ r₂ e₂ h₂.
        >>=-elim (fail_if (not (length p.membership_proof.path == p.tree_depth)) tt) _ h₂
          λ u₃ r₃ e₃ h₃.
            >>=-elim (fail_if (not (length p.non_membership_proof.path == p.smt_depth)) tt) _ h₃
              λ u₄ r₄ e₄ h₄.
                >>=-elim (fail_if (ltb n_outputs (length p.outputs)) tt) _ h₄ λ u₅ r₅ few h₅.
                  >>=-elim (ok_or (sum_note_amounts 0 (input_amounts p.inputs)) tt) _ h₅
                    λ i r₆ ins h₆.
                      >>=-elim (ok_or (sum_note_amounts 0 (output_amounts p.outputs)) tt) _ h₆
                        λ o r₇ outs h₇. >>=-elim (balanced p.ext_amount i o) _ h₇ λ b r₈ bal last.
                          let ie =
                            sum_note_amounts-sum (input_amounts p.inputs) 0 i
                              (ok_or-some _ tt i r₅ r₆ ins).0 in
                          let oe =
                            sum_note_amounts-sum (output_amounts p.outputs) 0 o
                              (ok_or-some _ tt o r₆ r₇ outs).0 in
                          let t : b ≡ true = ground arith in
                          (
                            ground arith,
                            omega (arith, ie, oe, balanced-true p.ext_amount i o r₇ bal t),
                          )

  fill_slots-fills :
      (p : TransactParams) (rs : List U256) {rs' : List U256} {ins : List TransactInputNote}
      {outs : List TransactOutput}
      → fill_slots crypto p rs ≡ ok (ins, outs) rs'
      → length p.outputs ≤ 2
      → (length ins ≡ 2)
        × (length outs ≡ 2)
        × (sum (input_amounts ins) ≡ sum (input_amounts p.inputs))
        × (sum (output_amounts outs) ≡ sum (output_amounts p.outputs))
  unfolding fill_slots
  fill_slots-fills p rs {rs'} {ins} {outs} h few =
      >>=-elim (fail_if (ltb n_inputs (length p.inputs)) tt) _ h λ u₁ r₁ few_in h₁.
        >>=-elim (dummy_inputs p.tree_depth (n_inputs - length p.inputs)) _ h₁ λ xs r₂ e₂ h₂.
          >>=-elim (check_paths p.tree_depth (p.inputs ++ xs)) _ h₂ λ u₃ r₃ e₃ h₃.
            >>=-elim (dummy_outputs (n_outputs - length p.outputs)) _ h₃ λ ys r₄ e₄ h₄.
              >>=-elim (check_recipients (p.outputs ++ ys)) _ h₄ λ u₅ r₅ e₅ last.
                let (ix, iz) = dummy_inputs-zero p.tree_depth (n_inputs - length p.inputs) r₁ e₂ in
                let (ox, oz) = dummy_outputs-zero (n_outputs - length p.outputs) r₃ e₄ in
                let i : ins ≡ p.inputs ++ xs = ground arith in
                let o : outs ≡ p.outputs ++ ys = ground arith in
                let few_in' : length p.inputs ≤ 2 = ground arith in
                (
                  rw i (length-append p.inputs xs ∙ omega (arith, ix)),
                  rw o (length-append p.outputs ys ∙ omega (arith, ox)),
                  rw i (sum-input_amounts p.inputs xs ∙ omega (arith, iz)),
                  rw o (sum-output_amounts p.outputs ys ∙ omega (arith, oz)),
                )

  -- What a transaction is that was built.
  pub record IsBuilt (p : TransactParams) (a : TransactArtifacts) : Type 0 where
    pub inputs_filled : length a.input_slots ≡ 2
    pub outputs_filled : length a.output_slots ≡ 2
    pub conserved :
        sum (input_amounts a.input_slots) + pos_part p.ext_amount
        ≡ sum (output_amounts a.output_slots) + neg_part p.ext_amount
    pub nullifiers :
        a.prepared.input_nullifiers ≡ map (nullifier_of crypto p.priv_key) a.input_slots
    pub commitments :
        a.prepared.output_commitments ≡ map (output_commitment crypto p.priv_key) a.output_slots
    pub amount_kept : a.ext_data.ext_amount ≡ p.ext_amount
    pub public_amount : from_ext p.ext_amount ≡ some a.prepared.public_amount_field
    pub digest : crypto.hash_ext_data a.ext_data ≡ some a.prepared.ext_data_hash_be

  -- A transaction that `transact` builds has two inputs and two outputs, and what its inputs hold and
  -- the external amount pays in is what its outputs hold and the external amount pays out. It carries
  -- the nullifiers of these inputs, the commitments of these outputs and the digest of its external
  -- data. Where the external amount is an i128, its public amount is the one that the pool contract
  -- computes from the external data.
  pub transact-IsBuilt :
      {L : Type 0} (w : World L) (p : TransactParams) (rs : List U256) {rs' : List U256}
      {a : TransactArtifacts}
      → transact crypto p rs ≡ ok a rs'
      → pos_part p.ext_amount ≤ i128_max
      → neg_part p.ext_amount ≤ 2 ^ 127
      → IsBuilt p a
        × (calculate_public_amount a.ext_data.ext_amount w ≡ ok a.prepared.public_amount_field w)
  unfolding transact
  transact-IsBuilt w p rs {rs'} {a} h up down =
      >>=-elim (check_params crypto p) _ h λ u r₁ checked h₁.
        >>=-elim (fill_slots crypto p) _ h₁ λ slots r₂ filled h₂.
          >>=-elim (ok_or (from_ext p.ext_amount) tt) _ h₂ λ field r₃ converted h₃.
            >>=-elim (encrypt_outputs crypto p.encryption_pubkey slots.1) _ h₃ λ encs r₄ e₄ h₄.
              let ext : ExtData = record {
                recipient = p.ext_recipient;
                ext_amount = p.ext_amount;
                encrypted_output0 = get_or encs 0 [];
                encrypted_output1 = get_or encs 1 [];
              } in
              >>=-elim (ok_or (crypto.hash_ext_data ext) tt) _ h₄ λ digest r₅ hashed last.
                let (few, balance) = check_params-balance p rs checked in
                let (ix, ox, iz, oz) = fill_slots-fills p r₁ filled few in
                let ins : a.input_slots ≡ slots.0 = ground arith in
                let outs : a.output_slots ≡ slots.1 = ground arith in
                let ext_is : a.ext_data ≡ ext = ground arith in
                let amount : a.ext_data.ext_amount ≡ p.ext_amount = ap (λ e. e.ext_amount) ext_is in
                let field_is : a.prepared.public_amount_field ≡ field = ground arith in
                let digest_is : a.prepared.ext_data_hash_be ≡ digest = ground arith in
                let nulls : a.prepared.input_nullifiers
                    ≡ map (nullifier_of crypto p.priv_key) slots.0 =
                  ground arith in
                let comms : a.prepared.output_commitments
                    ≡ map (output_commitment crypto p.priv_key) slots.1 =
                  ground arith in
                let converts : from_ext p.ext_amount ≡ some field =
                  (ok_or-some _ tt field r₂ r₃ converted).0 in
                let (x, client, pool) = from_ext-calculate_public_amount w p.ext_amount up down in
                let both : some field ≡ some x = sym converts ∙ client in
                let same : x ≡ field = cc in
                (
                  record {
                    inputs_filled = rw ins ix;
                    outputs_filled = rw outs ox;
                    conserved = rw (ins, outs, iz, oz) balance;
                    nullifiers = rw ins nulls;
                    commitments = rw outs comms;
                    amount_kept = amount;
                    public_amount = rw field_is converts;
                    digest = rw (ext_is, digest_is) (ok_or-some _ tt digest r₄ r₅ hashed).0;
                  },
                  rw (amount, field_is, ← same) pool,
                )
