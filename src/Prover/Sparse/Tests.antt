-- ===== src/Prover/Sparse/Tests.antt =====
-- The client's sparse tree beside the contract's, after the same insertions.
use paymage.Base.{◌≡◌, some, List, [], ◌∷◌, arith, refl}
use paymage.Host.Outcome.{Outcome, ok, err, trap}
use paymage.Host.Interface.{U256}
use paymage.Poseidon.{hash, get_zeroes}
use paymage.Poseidon.Sample.{perm, perm-Permutes}
use paymage.NonMembership.Defs
use paymage.NonMembership.Defs.{World, FindResult, split_bits, split_from, find_key}
use paymage.NonMembership.Insert.{common_from, insert_leaf}
use paymage.NonMembership.Smt.{root_hash}
use paymage.NonMembership.Present.{replace}
use paymage.NonMembership.Tests.{perm₃, perm₃-Permutes₃, auth, w₃, w₃-admin, tree₃, w₃-IsSmt}
use paymage.Prover.Sparse.Defs.{
  SparseMerkleTree, SmtResult, Error, new, find_internal, find, extend_siblings, rebuild,
  write_path, insert, update,
}
use paymage.Prover.Sparse.Correct.{Holds}
use paymage.Prover.Sparse.Agree.{
  find-find_key, insert-insert_leaf-refuse, insert-insert_leaf, update-replace,
}

abbrev tree : {A : Type 0} → Outcome SparseMerkleTree Error A → SparseMerkleTree
tree (ok a c) = c
tree (err e) = new
tree trap = new

c₁ : SparseMerkleTree
unfolding insert write_path rebuild extend_siblings find find_internal common_from split_bits
    split_from perm perm₃ hash get_zeroes
c₁ = tree (insert perm perm₃ 1 10 new)

c₂ : SparseMerkleTree
unfolding c₁ insert write_path rebuild extend_siblings find find_internal common_from split_bits
    split_from perm perm₃ hash get_zeroes
c₂ = tree (insert perm perm₃ 2 20 c₁)

c₃ : SparseMerkleTree
unfolding c₂ insert write_path rebuild extend_siblings find find_internal common_from split_bits
    split_from perm perm₃ hash get_zeroes
c₃ = tree (insert perm perm₃ 4 40 c₂)

c₃-Holds : Holds perm perm₃ c₃ tree₃
unfolding c₃ c₂ c₁ insert write_path rebuild extend_siblings find find_internal common_from
    split_bits split_from perm perm₃ hash get_zeroes
c₃-Holds = record {
  root = refl;
  stored = (
    refl,
    ground arith,
    (refl, ground arith, (refl, ground arith), (refl, ground arith)),
    (refl, ground arith),
  );
  placed = ((refl, refl), refl, (refl, refl, tt, tt), tt);
  within = ((tt, tt), tt);
  keys = ground arith;
}

abbrev siblings_of : Outcome SparseMerkleTree Error SmtResult → List U256
siblings_of (ok a c) = a.siblings
siblings_of (err e) = []
siblings_of trap = []

-- Zeros above the leaf of a collision are not trimmed: 1 and 5 differ at their third bit.
zeros_stay : siblings_of (insert perm perm₃ 5 50 c₁) ≡ 0 ∷ 0 ∷ []
unfolding c₁ insert write_path rebuild extend_siblings find find_internal common_from split_bits
    split_from perm perm₃ hash get_zeroes
zeros_stay = refl

find-find_key_example : (r : FindResult) × (find 6 c₃ ≡ ok r c₃) × (find_key 6 w₃ ≡ ok r w₃)
find-find_key_example = find-find_key perm perm₃ c₃ tree₃ c₃-Holds 6 w₃ w₃-IsSmt

insert-insert_leaf-refuse_example :
    (insert perm perm₃ 4 41 c₃ ≡ err Error.key_already_exists)
    × (insert_leaf perm perm₃ auth 4 41 w₃ ≡ err Defs.Error.key_already_exists)
insert-insert_leaf-refuse_example =
    insert-insert_leaf-refuse perm perm₃ c₃ tree₃ c₃-Holds 4 41 w₃ w₃-IsSmt 7 auth w₃-admin refl
      (ground arith)

insert-insert_leaf_example :
    (x : SmtResult) × (c' : SparseMerkleTree) × (w' : World) × (insert perm perm₃ 6 60 c₃ ≡ ok x c')
    × (insert_leaf perm perm₃ auth 6 60 w₃ ≡ ok tt w')
    × (w'.root ≡ some c'.root)
    × (x.new_root ≡ c'.root)
    × (x.old_root ≡ c₃.root)
insert-insert_leaf_example =
    insert-insert_leaf perm perm₃ c₃ tree₃ c₃-Holds 6 60 w₃ w₃-IsSmt 7 auth w₃-admin refl
      perm-Permutes perm₃-Permutes₃ (omega arith) (omega arith) (ground arith)

update-replace_example :
    (x : SmtResult) × (c' : SparseMerkleTree) × (update perm perm₃ 4 41 c₃ ≡ ok x c')
    × (c'.root ≡ root_hash perm perm₃ (replace 4 41 tree₃))
    × (x.new_root ≡ c'.root)
    × (x.old_root ≡ c₃.root)
update-replace_example = update-replace perm perm₃ c₃ tree₃ c₃-Holds 4 41 (ground arith)
