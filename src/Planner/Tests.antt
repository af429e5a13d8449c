-- ===== src/Planner/Tests.antt =====
-- Runs of the planner on concrete wallets, and each theorem at such a wallet.
use paymage.Base.{◌≡◌, refl, none, some, List, [], ◌∷◌, arith, pos, negsuc}
use paymage.Host.Outcome.{ok}
use paymage.Planner.Amounts.{NoteAmount, to_ext, checked_neg, checked_add, checked_sub}
use paymage.Planner.Sample.{insertion, insertion-IsSort}
use paymage.Planner.Combination.Defs.{CombinationResult, two_scan, two_loop, one_scan}
use paymage.Planner.Combination.Search.{
  find_combination, choose, k_scan, k_loop, dfs, judge, visit, leave, extend, greedy, below,
  enumerate, pop,
}
use paymage.Planner.Combination.Find.{IsSound, find_combination-IsSound}
use paymage.Planner.Combination.Pairs.{SaysOfPairs, find_combination-SaysOfPairs}
use paymage.Planner.Plan.Defs.{
  StepAction, SpendableNote, PlannedStep, from_spendable, from_amount, plan, check_range,
  merge_steps, build_steps, resolve, resolve_input_note,
}
use paymage.Planner.Plan.Correct.{IsPlan, Ends, plan-Ends}
use paymage.Planner.Session.Defs.{
  SpendTarget, SpendSession, Transact, setup, step, complete_step, execute_plan, planned,
  validate_target, materialize_step, materialize_final,
}
use paymage.Planner.Session.Balance.{Conserves, step-Conserves}
use paymage.Planner.Session.Progress.{Finishes}
use paymage.Planner.Session.Complete.{execute_plan-Finishes}

abbrev n₂ : SpendableNote
n₂ = record { commitment = 11; amount = 2 }

abbrev n₃ : SpendableNote
n₃ = record { commitment = 12; amount = 3 }

abbrev n₅ : SpendableNote
n₅ = record { commitment = 13; amount = 5 }

abbrev wallet : List SpendableNote
wallet = n₂ ∷ n₃ ∷ n₅ ∷ []

abbrev values : List NoteAmount
values = 2 ∷ 3 ∷ 5 ∷ []

three_exact :
    find_combination insertion values 10 tt ≡ ok (CombinationResult.exact_k (2 ∷ 1 ∷ 0 ∷ [])) tt
unfolding find_combination choose k_scan k_loop dfs judge visit leave extend greedy below enumerate
    pop two_scan two_loop one_scan checked_add checked_sub
three_exact = refl

two_exact : find_combination insertion values 8 tt ≡ ok (CombinationResult.two_exact 1 2) tt
unfolding find_combination choose k_scan k_loop dfs judge visit leave extend greedy below enumerate
    pop two_scan two_loop one_scan checked_add checked_sub
two_exact = refl

too_little : find_combination insertion values 11 tt ≡ ok CombinationResult.impossible tt
unfolding find_combination choose k_scan k_loop dfs judge visit leave extend greedy below enumerate
    pop two_scan two_loop one_scan checked_add checked_sub
too_little = refl

abbrev two_steps : List PlannedStep
two_steps =
    record {
      inputs = (from_spendable n₅, some (from_spendable n₃));
      action = StepAction.consolidate 8;
    }
    ∷ record {
      inputs = (from_amount 8, some (from_spendable n₂));
      action = StepAction.final (10, none);
    }
    ∷ []

planned_steps : plan insertion 10 wallet tt ≡ ok two_steps tt
unfolding plan check_range merge_steps build_steps find_combination choose k_scan k_loop dfs judge
    visit leave extend greedy below enumerate pop two_scan two_loop one_scan checked_add checked_sub
planned_steps = refl

abbrev session : SpendSession
session = record {
  steps = two_steps;
  wallet = wallet;
  pool_address = 80 ∷ [];
  target = SpendTarget.withdraw (71 ∷ 65 ∷ []);
  step_index = 0;
}

is_set_up :
    setup insertion wallet 10 (80 ∷ []) (SpendTarget.withdraw (71 ∷ 65 ∷ [])) tt ≡ ok session tt
unfolding setup validate_target planned plan check_range merge_steps build_steps find_combination
    choose k_scan k_loop dfs judge visit leave extend greedy below enumerate pop two_scan two_loop
    one_scan checked_add checked_sub
is_set_up = refl

abbrev first_transact : Transact
first_transact = record {
  input_commitments = 13 ∷ 12 ∷ [];
  output_amounts = (8, 0);
  ext_amount = pos 0;
  ext_recipient = 80 ∷ [];
  out_recipient_note_pubkeys = (none, none);
  out_recipient_encryption_pubkeys = (none, none);
}

abbrev last_transact : Transact
last_transact = record {
  input_commitments = 900 ∷ 11 ∷ [];
  output_amounts = (0, 0);
  ext_amount = negsuc 9;
  ext_recipient = 71 ∷ 65 ∷ [];
  out_recipient_note_pubkeys = (none, none);
  out_recipient_encryption_pubkeys = (none, none);
}

first_step : step session ≡ ok (some first_transact) session
unfolding step planned resolve resolve_input_note materialize_step
first_step = refl

whole_run :
    execute_plan ((900, 0) ∷ (901, 0) ∷ []) session
    ≡ ok (first_transact ∷ last_transact ∷ []) (record session { wallet = []; step_index = 2 })
unfolding execute_plan step complete_step planned resolve resolve_input_note materialize_step
    materialize_final to_ext checked_neg
whole_run = refl

find_combination-IsSound_example : IsSound values 10 (CombinationResult.exact_k (2 ∷ 1 ∷ 0 ∷ []))
find_combination-IsSound_example =
    find_combination-IsSound insertion insertion-IsSort 10 values
      (CombinationResult.exact_k (2 ∷ 1 ∷ 0 ∷ [])) three_exact

find_combination-SaysOfPairs_example : SaysOfPairs values 11 CombinationResult.impossible
find_combination-SaysOfPairs_example =
    find_combination-SaysOfPairs insertion insertion-IsSort 11 values CombinationResult.impossible
      too_little

plan-Ends_example : Ends wallet 10 (plan insertion 10 wallet tt)
plan-Ends_example = plan-Ends insertion insertion-IsSort 10 wallet

step-Conserves_example : Conserves session first_transact
step-Conserves_example = step-Conserves session session first_transact (refl, (refl, tt)) first_step

two_steps-IsPlan : IsPlan wallet 10 two_steps
two_steps-IsPlan = record {
  change = none;
  first = 2;
  rest = 1 ∷ 0 ∷ [];
  choice = record { distinct = ground arith; in_range = ground arith; sums = refl };
  few = omega arith;
  note = n₅;
  at_first = refl;
  run = record {
    merged = n₃ ∷ n₂ ∷ [];
    taken = (refl, (refl, tt));
    chain = (refl, refl, (refl, refl, refl));
    balanced = (refl, (refl, tt));
  };
}

execute_plan-Finishes_example : Finishes ((900, 0) ∷ (901, 0) ∷ []) session [] 2
unfolding two_steps-IsPlan
execute_plan-Finishes_example =
    execute_plan-Finishes session 10 two_steps-IsPlan ((900, 0) ∷ (901, 0) ∷ []) refl (ground arith)
      (ground arith) (omega arith) (ground arith) (ground arith)
