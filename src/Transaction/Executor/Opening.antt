-- ===== src/Transaction/Executor/Opening.antt =====
-- A transaction with a fresh ID is opened and carried to its end.
use dsh_session_maintenance.Prelude.{◌≡◌, String, [], none, find, keep, string_eq}
use dsh_session_maintenance.Contracts.Json.{Json}
use dsh_session_maintenance.Domain.Text.{Text}
use dsh_session_maintenance.Transaction.Store.{Store, has_id, has_plan, is_step_of}
use dsh_session_maintenance.Transaction.World.{World}

-- Nothing is known of the ID, and the plan has not been applied.
pub record IsFresh (id plan_id plan_hash : String) (store : Store) : Type 0 where
  pub no_row : find (has_id id) store.transactions ≡ none
  pub not_applied : find (has_plan plan_id plan_hash) store.transactions ≡ none
  pub no_steps : keep (is_step_of id) store.steps ≡ []
