-- ===== src/NonMembership/Tests.antt =====
-- Runs of the sparse tree's contract on concrete inputs, and each theorem at such an input.
use paymage.Base.{
  ◌+◌, ◌*◌, ◌%◌, ◌==◌, ◌≡◌, refl, true, false, Bool, none, some, List, [], ◌∷◌, arith, empty,
  is_some, get_elem?, ◌⊎◌, ◌↔◌, Map,
}
use paymage.Host.Outcome.{Outcome, ok, err, trap}
use paymage.Host.Interface.{U256, Auth}
use paymage.Poseidon.{bn256_modulus, poseidon2_compress, poseidon2_hash2, hash, get_zeroes}
use paymage.Poseidon.Sample.{perm, perm-Permutes}
use paymage.NonMembership.Defs.{
  World, Error, Event, FindResult, constructor, split_from, split_bits, find_key_internal, find_key,
  hash_leaf, hash_internal, climb, start_of, verify_non_membership,
}
use paymage.NonMembership.Insert.{
  common_from, hash_pair, drop_old, insert_level, insert_levels, prepare, insert_leaf,
}
use paymage.NonMembership.Delete.{promote, build_new, delete_level, delete_levels, delete_leaf}
use paymage.NonMembership.Smt.{Smt, HasKey, Contains, IsPlaced, IsWithin, IsSmt, root_hash}
use paymage.NonMembership.Inserted.{insert_leaf-grows}
use paymage.NonMembership.Search.{IsAnswer}
use paymage.NonMembership.Hashes.{Permutes₃}
use paymage.NonMembership.Verify.{
  find_key-IsAnswer, verify_non_membership_sound, find_key-verify_non_membership,
}

unfoldable pub perm₃ : U256 → U256 → U256 → U256
perm₃ a b c = (2 * a + 3 * b + 5 * c + 1) % bn256_modulus

pub perm₃-Permutes₃ : Permutes₃ perm₃
unfolding perm₃
perm₃-Permutes₃ a b c = ground arith

abbrev pub auth : Auth
auth a = a == 7

abbrev world : {E A : Type 0} → Outcome World E A → World
world (ok a w) = w
world (err e) = record { admin = none; root = none; nodes = empty; events = [] }
world trap = record { admin = none; root = none; nodes = empty; events = [] }

w₀ : World
unfolding constructor
w₀ = world (constructor 7 (record { admin = none; root = none; nodes = empty; events = [] }))

w₁ : World
unfolding w₀ insert_leaf prepare insert_levels insert_level drop_old hash_pair common_from hash_leaf
    hash_internal split_bits split_from find_key_internal poseidon2_compress poseidon2_hash2 perm
    perm₃ hash get_zeroes
w₁ = world (insert_leaf perm perm₃ auth 1 10 w₀)

w₂ : World
unfolding w₁ insert_leaf prepare insert_levels insert_level drop_old hash_pair common_from hash_leaf
    hash_internal split_bits split_from find_key_internal poseidon2_compress poseidon2_hash2 perm
    perm₃ hash get_zeroes
w₂ = world (insert_leaf perm perm₃ auth 2 20 w₁)

pub w₃ : World
unfolding w₂ insert_leaf prepare insert_levels insert_level drop_old hash_pair common_from hash_leaf
    hash_internal split_bits split_from find_key_internal poseidon2_compress poseidon2_hash2 perm
    perm₃ hash get_zeroes
w₃ = world (insert_leaf perm perm₃ auth 4 40 w₂)

abbrev tree₂ : Smt
tree₂ = Smt.node (Smt.leaf 2 20) (Smt.leaf 1 10)

abbrev pub tree₃ : Smt
tree₃ = Smt.node (Smt.node (Smt.leaf 4 40) (Smt.leaf 2 20)) (Smt.leaf 1 10)

two_leaves : w₂.root ≡ some (root_hash perm perm₃ tree₂)
unfolding w₂ w₁ w₀ constructor insert_leaf prepare insert_levels insert_level drop_old hash_pair
    common_from hash_leaf hash_internal split_bits split_from find_key_internal poseidon2_compress
    poseidon2_hash2 perm perm₃ hash get_zeroes
two_leaves = refl

three_leaves : w₃.root ≡ some (root_hash perm perm₃ tree₃)
unfolding w₃ w₂ w₁ w₀ constructor insert_leaf prepare insert_levels insert_level drop_old hash_pair
    common_from hash_leaf hash_internal split_bits split_from find_key_internal poseidon2_compress
    poseidon2_hash2 perm perm₃ hash get_zeroes
three_leaves = refl

pub w₃-IsSmt : IsSmt perm perm₃ w₃ tree₃
unfolding w₃ w₂ w₁ w₀ constructor insert_leaf prepare insert_levels insert_level drop_old hash_pair
    common_from hash_leaf hash_internal split_bits split_from find_key_internal poseidon2_compress
    poseidon2_hash2 perm perm₃ hash get_zeroes
w₃-IsSmt = record {
  root = refl;
  stored = (
    refl,
    ground arith,
    (refl, ground arith, (refl, ground arith), (refl, ground arith)),
    (refl, ground arith),
  );
  placed = ((refl, refl), refl, (refl, refl, tt, tt), tt);
  within = ((tt, tt), tt);
  keys = ground arith;
  values = ground arith;
}

pub w₃-admin : w₃.admin ≡ some 7
unfolding w₃ w₂ w₁ w₀ constructor insert_leaf prepare insert_levels insert_level drop_old hash_pair
    common_from hash_leaf hash_internal split_bits split_from find_key_internal poseidon2_compress
    poseidon2_hash2 perm perm₃ hash get_zeroes
w₃-admin = refl

insert_leaf-grows_example :
    (t' : Smt) × IsPlaced 0 t'
    × IsWithin 256 t'
    × ((k v : U256) → Contains k v t' ↔ (((6 ≡ k) × (60 ≡ v)) ⊎ Contains k v tree₃))
    × (m : Map (List U256)) × (insert_leaf perm perm₃ auth 6 60 w₃
        ≡ ok tt (record w₃ {
          root = some (root_hash perm perm₃ t');
          nodes = m;
          events = Event.leaf_inserted 6 60 (root_hash perm perm₃ t') ∷ w₃.events;
        }))
insert_leaf-grows_example =
    insert_leaf-grows perm perm₃ w₃ tree₃ w₃-IsSmt 6 7 auth w₃-admin refl 60 perm-Permutes
      perm₃-Permutes₃ (omega arith) (omega arith) (ground arith)

-- 6 ends at the leaf of 2.
abbrev six : FindResult
six = record {
  found = false;
  siblings = perm₃ 1 10 1 ∷ perm₃ 4 40 1 ∷ [];
  found_value = 0;
  not_found_key = 2;
  not_found_value = 20;
  is_old0 = false;
}

finds_six : find_key 6 w₃ ≡ ok six w₃
unfolding find_key w₃ w₂ w₁ w₀ constructor insert_leaf prepare insert_levels insert_level drop_old
    hash_pair common_from hash_leaf hash_internal split_bits split_from find_key_internal
    poseidon2_compress poseidon2_hash2 perm perm₃ hash get_zeroes
finds_six = refl

-- The root is rebuilt without the leaf that moves up, so that the two nodes above it stay.
abbrev below_root : U256
below_root = hash perm (perm₃ 4 40 1) (perm₃ 2 20 1)

abbrev stored : World → List Bool
stored w =
    is_some (w.nodes below_root) ∷ is_some (w.nodes (hash perm below_root (perm₃ 1 10 1))) ∷ []

delete_leaf-leaves_old_nodes :
    (get_elem? (stored (world (delete_leaf perm perm₃ auth 2 w₃))) 0 ≡ some true)
    × (get_elem? (stored (world (delete_leaf perm perm₃ auth 2 w₃))) 1 ≡ some true)
unfolding delete_leaf promote delete_levels delete_level build_new w₃ w₂ w₁ w₀ constructor
    insert_leaf prepare insert_levels insert_level drop_old hash_pair common_from hash_leaf
    hash_internal split_bits split_from find_key_internal poseidon2_compress poseidon2_hash2 perm
    perm₃ hash get_zeroes
delete_leaf-leaves_old_nodes = (refl, refl)

moves_up :
    (world (delete_leaf perm perm₃ auth 2 w₃)).root
    ≡ some (root_hash perm perm₃ (Smt.node (Smt.leaf 4 40) (Smt.leaf 1 10)))
unfolding delete_leaf promote delete_levels delete_level build_new w₃ w₂ w₁ w₀ constructor
    insert_leaf prepare insert_levels insert_level drop_old hash_pair common_from hash_leaf
    hash_internal split_bits split_from find_key_internal poseidon2_compress poseidon2_hash2 perm
    perm₃ hash get_zeroes
moves_up = refl

-- A leaf of value 0 at the end of a path: the root is rebuilt from zero.
zero_value :
    verify_non_membership perm perm₃ 5 [] 1 0 (world (insert_leaf perm perm₃ auth 1 0 w₀))
    ≡ err Error.invalid_proof
unfolding verify_non_membership start_of climb w₃ w₂ w₁ w₀ constructor insert_leaf prepare
    insert_levels insert_level drop_old hash_pair common_from hash_leaf hash_internal split_bits
    split_from find_key_internal poseidon2_compress poseidon2_hash2 perm perm₃ hash get_zeroes
zero_value = refl

find_key-IsAnswer_example :
    (r : FindResult) × (find_key 6 w₃ ≡ ok r w₃) × IsAnswer perm perm₃ 6 (split_bits 6) tree₃ r
find_key-IsAnswer_example = find_key-IsAnswer perm perm₃ w₃ tree₃ w₃-IsSmt 6

verify_non_membership_sound_example :
    (HasKey 4 tree₃ → verify_non_membership perm perm₃ 4 [] 4 0 w₃ ≡ ok false w₃)
    × ((w' : World) → verify_non_membership perm perm₃ 4 [] 4 0 w₃ ≡ ok true w' → ¬ HasKey 4 tree₃)
verify_non_membership_sound_example =
    verify_non_membership_sound perm perm₃ w₃ tree₃ w₃-IsSmt 4 [] 4 0

find_key-verify_non_membership_example :
    verify_non_membership perm perm₃ 6 six.siblings six.not_found_key six.not_found_value w₃
    ≡ ok true w₃
find_key-verify_non_membership_example =
    find_key-verify_non_membership perm perm₃ w₃ tree₃ w₃-IsSmt 6 perm-Permutes perm₃-Permutes₃
      (ground arith) (ground arith) six finds_six
