-- ===== src/LazyCall/Tests.antt =====
-- Calls that are put off, on small examples.
use nginz.Prelude.{◌+◌, ◌≤◌, ◌≡◌, refl, [], ◌∷◌, ◌++◌, update}
use nginz.LazyCall.{Lazy, lazy_stack_size, lazy_call, lazy_call_step}
use nginz.LazyCall.Order.{
  note, note_unref, pending, lazy_call_step_order, lazy_call_step_drops, lazy_call-pending,
  note_and, release_by, put_one, put_one-PutsOff,
}

-- Two calls and one object that are put off.
abbrev two_calls : Lazy
two_calls = record {
  lazy_stack_count = 2;
  lazy_stack = λ i. 10 + i;
  lazy_stack_data = λ i. 20 + i;
  lazy_cleanup_count = 1;
  lazy_cleanup_objects = λ i. 30 + i;
}

abbrev three_calls : Lazy
three_calls = record {
  lazy_stack_count = 3;
  lazy_stack = update (λ i. 10 + i) 2 5;
  lazy_stack_data = update (λ i. 20 + i) 2 6;
  lazy_cleanup_count = 1;
  lazy_cleanup_objects = λ i. 30 + i;
}

two_pending : pending two_calls 2 ≡ (11, 21) ∷ (10, 20) ∷ []
two_pending = refl

lazy_call_step_order_example :
    ((lazy_call_step note note_unref (two_calls, [])).1 ≡ [] ++ pending two_calls 2)
    × ((lazy_call_step note note_unref (two_calls, [])).0.lazy_stack_count ≡ 0)
    × ((lazy_call_step note note_unref (two_calls, [])).0.lazy_cleanup_count ≡ 0)
lazy_call_step_order_example = lazy_call_step_order two_calls []

-- Every function puts itself off again.
lazy_call_step_drops_example :
    let t =
      lazy_call_step (note_and (put_one (λ f x. (f, x)))) (release_by (λ o s. s)) (two_calls, []) in
    (t.1 ≡ [] ++ pending two_calls 2) × (pending t.0 t.0.lazy_stack_count ≡ [])
lazy_call_step_drops_example =
    lazy_call_step_drops (put_one (λ f x. (f, x))) (λ o s. s) (put_one-PutsOff (λ f x. (f, x)))
      (λ o s. refl) two_calls []

lazy_call-pending_example :
    (3 ≤ lazy_stack_size) × (pending three_calls 3 ≡ (5, 6) ∷ pending two_calls 2)
unfolding lazy_call
lazy_call-pending_example = lazy_call-pending 5 6 two_calls three_calls refl
