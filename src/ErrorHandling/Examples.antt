-- ===== src/ErrorHandling/Examples.antt =====
-- The theorems on retries and dead letters at concrete inputs.
use fastapi_kafka_guide.Prelude.{
  ℕ, ◌+◌, ◌≡◌, refl, inr, true, some, List, [], ◌∷◌, arith, ltb, eqb, err, ok, Bool, false,
}
use fastapi_kafka_guide.Messaging.{SendOutcome, acked, refused, crashed, commit_failed}
use fastapi_kafka_guide.ErrorHandling.Payments.{
  Amounts, Payment, rejected, App, Env, process_payment, consume_payment, consume_payments,
}
use fastapi_kafka_guide.ErrorHandling.Accounting.{
  settled, unsent_dead_letter_lost, consume_payments-settled,
}

abbrev whole : Amounts ℕ
whole = record { no_amount = 0; is_ten = λ n. eqb n 10; is_positive = λ n. ltb 0 n }

abbrev paying : ℕ → Payment ℕ
paying n = record {
  payment_id = some "p1";
  user_id = some "ann";
  amount = some n;
  currency = some "KRW";
}

abbrev env : SendOutcome → Bool → Env
env outcome commit_fails = record {
  max_retries = 3;
  base_delay = 1;
  now = "noon";
  draw = 0;
  send = outcome;
  commit_fails = commit_fails;
}

abbrev app : App ℕ
app = record {
  producer = true;
  dead_letters = [];
  processed_payments = [];
  commits = 0;
  slept = [];
}

ten-fails : process_payment whole "noon" (paying 10) ≡ err (rejected (some "p1"))
unfolding process_payment
ten-fails = refl

unsent_dead_letter_lost_example :
    let (r, s') = consume_payment whole (env refused false) (paying 10) app in
    (r ≡ ok tt) × (s'.processed_payments ≡ []) × (s'.dead_letters ≡ []) × (s'.commits ≡ 0 + 1)
unsent_dead_letter_lost_example =
    unsent_dead_letter_lost whole (env refused false) (paying 10) (rejected (some "p1")) app
      (omega arith) ten-fails (inr refl) refl

-- The commit of the second raises.
abbrev messages : List (Env × Payment ℕ)
messages =
    (env acked false, paying 10) ∷ (env acked true, paying 20) ∷ (env acked false, paying 30) ∷ []

consume_payments-settled_example :
    let (ended, s') = consume_payments whole messages app in
    (settled s' ≡ 0 + 2) × (s'.commits + 1 ≡ 0 + 2) × (ended ≡ crashed commit_failed)
consume_payments-settled_example =
    consume_payments-settled whole messages app
      ((omega arith, refl), ((omega arith, refl), ((omega arith, refl), tt))) refl
