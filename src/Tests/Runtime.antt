-- ===== src/Tests/Runtime.antt =====
-- Results that come to the runtime out of order. Moments and durations are numbers.
use control_ok_a_v.Base.{ℕ, ◌-◌, true, List, [], ◌∷◌, some, none, arith}
use control_ok_a_v.Base.Int.{pos}
use control_ok_a_v.Base.Dict.{lookup, nat_eq}
use control_ok_a_v.Services.Transaction.{ControlTransactionResult}
use control_ok_a_v.Runtime.{Texts, init}
use control_ok_a_v.Runtime.Chosen.{IsOfNewest}
use control_ok_a_v.Runtime.Newest.{Arrival, AreNumbered, record_all, newest_status_is_kept}
use control_ok_a_v.Tests.Transaction.{answered, unanswered}

abbrev texts : Texts ℕ ℕ
texts = record {
  at_least_zero = λ t. t;
  format_utc = λ t. "2024-01-01T00:00:00.000Z";
  before = λ t d. t - d;
  error_text = λ e. "no answer";
  stripped = λ text. some text;
  at_most = λ a b. true;
}

abbrev arrival : ℕ → ℕ → ControlTransactionResult ℕ → Arrival ℕ ℕ
arrival number seq result = record {
  number = number;
  result = record result { cmd_seq = some seq };
  finished = 100;
  session_id = none;
}

-- The command after the wrap is in before the one that was sent just before the wrap.
abbrev arrivals : List (Arrival ℕ ℕ)
arrivals = arrival 0x1_0001 1 answered ∷ (arrival 0xFFFF 0xFFFF unanswered ∷ [])

arrivals-AreNumbered : AreNumbered 3 arrivals none
arrivals-AreNumbered =
    (λ e. (omega arith, tt), (λ e. (omega arith, (omega arith, omega arith)), tt))

newest_status_is_kept_example :
    IsOfNewest
      (some 0x1_0001)
      (lookup 3 (record_all texts arrivals (init (pos 20) true)).per_node_last_status)
newest_status_is_kept_example =
    newest_status_is_kept texts 3 (pos 20) true arrivals arrivals-AreNumbered
