-- ===== src/Reliability/Timeout/Tests.antt =====
-- Tests of runtime/src/reliability/timeout.rs, on tokens that are numbers with those of their ancestors;
-- the world is the next number and the numbers that were cancelled.
use xola.Base.{
  ℕ, suc, ◌≡◌, ◌==◌, ==_iff, refl, Bool, true, false, ◌||◌, List, [], ◌∷◌, from_secs, Bool-cases,
  inl, inr,
}
use xola.Reliability.Timeout.{
  default_config, TimeoutContext, Tokens, new_task, new_step_token, new_tool_token, cancel_task,
}

abbrev Token : Type 0
Token = ℕ × List ℕ

abbrev World : Type 0
World = ℕ × List ℕ

abbrev among : ℕ → List ℕ → Bool
among i [] = false
among i (j ∷ js) = (i == j) || among i js

abbrev any_among : List ℕ → List ℕ → Bool
any_among [] js = false
any_among (i ∷ is) js = among i js || any_among is js

abbrev cancelled_in : Token → World → Bool
cancelled_in (i, ancestors) (next, js) = any_among (i ∷ ancestors) js

abbrev mark : Token → World → World
mark (i, ancestors) (next, js) = (next, i ∷ js)

abbrev child : Token → World → Token × World
child (i, ancestors) (next, js) = ((next, i ∷ ancestors), (suc next, js))

mark-cancels : (t : Token) (w : World) → cancelled_in t (mark t w) ≡ true
mark-cancels (i, ancestors) (next, js) = rw ((==_iff i i).1 refl) refl

child-follows :
    (t : Token) (w v : World) → cancelled_in t v ≡ true → cancelled_in (child t w).0 v ≡ true
child-follows (i, ancestors) (next, js) (later, ks) h = elim (Bool-cases (among next ks)) [
  | inl itself ↦ rw itself refl
  | inr not_itself ↦ rw (not_itself, h) refl
]

abbrev tree : Tokens Token World
tree = record {
  new = λ (next, js). ((next, []), (suc next, js));
  child_token = child;
  cancel = mark;
  is_cancelled = cancelled_in;
  cancel_cancels = mark-cancels;
  child_follows = child-follows;
}

abbrev context : TimeoutContext Token
context = (new_task tree default_config (0, [])).0

-- test_task_cancellation_propagates
before_cancellation : tree.is_cancelled (new_step_token tree context (1, [])).0 (2, []) ≡ false
unfolding new_step_token
before_cancellation = refl

cascades :
    let (step_token, w) = new_step_token tree context (1, []) in
    let (tool_token, v) = new_tool_token tree context step_token w in
    tree.is_cancelled tool_token (cancel_task tree context v) ≡ true
unfolding new_step_token new_tool_token cancel_task
cascades = refl

-- A step that is cancelled does not cancel its task.
task_goes_on :
    tree.is_cancelled context.task_token (mark (new_step_token tree context (1, [])).0 (2, []))
    ≡ false
unfolding new_step_token
task_goes_on = refl

-- test_default_config
defaults : default_config.task_timeout ≡ from_secs 300
defaults = refl
