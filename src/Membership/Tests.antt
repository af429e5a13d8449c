-- ===== src/Membership/Tests.antt =====
-- The membership contract on concrete inputs, and each theorem at such an input.
use paymage.Base.{◌≡◌, [], ◌∷◌, some, true, false, arith, refl}
use paymage.Host.Outcome.{ok}
use paymage.Host.Interface.{Auth}
use paymage.Poseidon.Sample.{perm, perm-Permutes, perm-IsZeroTable}
use paymage.Merkle.Spec.{root_of}
use paymage.Membership.Defs.{Event, World, constructor, insert_leaf, set_admin_insert_only}
use paymage.Membership.Correct.{
  blank, may_insert, IsMemberTree, insert_leaf-IsMemberTree, constructor-IsMemberTree,
}

abbrev everyone : Auth
everyone a = true

abbrev nobody : Auth
nobody a = false

-- A tree of one level.
abbrev fresh :
    (w : World) × (constructor 10 1 blank ≡ ok tt w)
    × IsMemberTree perm perm-Permutes [] 1 w
    × (w.admin_insert_only ≡ some true)
fresh = constructor-IsMemberTree perm perm-Permutes perm-IsZeroTable 10 0 (omega arith)

abbrev anyone : World
anyone = record (fresh.0) { admin_insert_only = some false }

anyone-IsMemberTree : IsMemberTree perm perm-Permutes [] 1 anyone
anyone-IsMemberTree = record {
  levels_set = fresh.2.levels_set;
  levels_high = fresh.2.levels_high;
  next_set = fresh.2.next_set;
  room = fresh.2.room;
  field = fresh.2.field;
  fits = fresh.2.fits;
  root_set = fresh.2.root_set;
}

abbrev one :
    (w' : World) × (insert_leaf perm nobody 5 anyone ≡ ok tt w')
    × IsMemberTree perm perm-Permutes (5 ∷ []) 1 w'
    × (w'.events ≡ Event.leaf_added 5 0 (root_of perm 1 (5 ∷ [])) ∷ anyone.events)
    × (w'.admin ≡ anyone.admin)
    × (w'.admin_insert_only ≡ some false)
one =
    insert_leaf-IsMemberTree perm perm-Permutes nobody [] 1 anyone 5 anyone-IsMemberTree refl
      (omega arith) (omega arith)

insert_leaf-IsMemberTree_example :
    (w' : World) × (insert_leaf perm nobody 5 anyone ≡ ok tt w')
    × IsMemberTree perm perm-Permutes (5 ∷ []) 1 w'
    × (w'.events ≡ Event.leaf_added 5 0 (root_of perm 1 (5 ∷ [])) ∷ anyone.events)
    × (w'.admin ≡ anyone.admin)
    × (w'.admin_insert_only ≡ some false)
insert_leaf-IsMemberTree_example =
    insert_leaf-IsMemberTree perm perm-Permutes nobody [] 1 anyone 5 anyone-IsMemberTree refl
      (omega arith) (omega arith)

one_may : may_insert everyone (one.0) ≡ true
one_may = rw one.5 refl

abbrev two_leaves :
    (w' : World) × (insert_leaf perm everyone 6 (one.0) ≡ ok tt w')
    × IsMemberTree perm perm-Permutes (5 ∷ 6 ∷ []) 1 w'
    × (w'.events ≡ Event.leaf_added 6 1 (root_of perm 1 (5 ∷ 6 ∷ [])) ∷ one.0.events)
    × (w'.admin ≡ one.0.admin)
    × (w'.admin_insert_only ≡ one.0.admin_insert_only)
two_leaves =
    insert_leaf-IsMemberTree perm perm-Permutes everyone (5 ∷ []) 1 (one.0) 6 one.2 one_may
      (omega arith) (omega arith)

two_may : may_insert everyone (two_leaves.0) ≡ true
two_may = rw (two_leaves.5, one.5) refl

abbrev guarded : World
guarded = record blank { admin = some 10; admin_insert_only = some true }

freed :
    set_admin_insert_only everyone false guarded
    ≡ ok tt (record guarded { admin_insert_only = some false })
unfolding set_admin_insert_only
freed = refl
