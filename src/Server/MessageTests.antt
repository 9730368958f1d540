-- ===== src/Server/MessageTests.antt =====
-- Runs of batches of src/server.rs.
use intermcp.Prelude.{false, ◌≡◌, refl, arith, ℕ, codes, none, some, List, [], ◌∷◌, All}
use intermcp.Error.{ok, err}
use intermcp.Json.{string, object, field, end}
use intermcp.Protocol.Ids.{RequestId}
use intermcp.Server.Messages.{Wire, Task, run_tasks, sort_by_index}
use intermcp.Server.Messages.Order.{
  Completes, none_left, completes, IsAnswer, places, task_places, batch_in_order,
}
use intermcp.Server.Tests.{small_host, server, approved_call}

-- A wire on which every item is a ping with the identifier 1.
abbrev ping_wire : Wire
ping_wire = record {
  parse_items = λ t. err t;
  parse_value = λ t. err t;
  parse_request = λ v. ok (record {
    jsonrpc = codes "2.0";
    id = some (RequestId.number false 1);
    method = codes "ping";
    params = none;
  });
  print_response = λ r. [];
  print_responses = λ rs. [];
}

abbrev task : ℕ → Task
task i = record {
  index = i;
  around = approved_call;
  item = object (field (codes "jsonrpc") (string (codes "2.0")) end);
}

-- The last of three is completed first, and the first one last.
abbrev three : List Task
three = task 0 ∷ task 1 ∷ task 2 ∷ []

abbrev backwards : List Task
backwards = task 2 ∷ task 1 ∷ task 0 ∷ []

backwards-Completes : Completes three backwards
backwards-Completes =
    completes (task 0) (task 1 ∷ task 2 ∷ []) (task 2 ∷ task 1 ∷ []) [] (task 2 ∷ task 1 ∷ [])
      backwards
      (completes (task 1) (task 2 ∷ []) (task 2 ∷ []) [] (task 2 ∷ []) (task 2 ∷ task 1 ∷ [])
        (completes (task 2) [] [] [] [] (task 2 ∷ []) none_left refl refl) refl refl)
      refl refl

batch_in_order_example :
    (places (sort_by_index (run_tasks small_host ping_wire backwards server).1) ≡ task_places three)
    × All
        (IsAnswer small_host ping_wire three)
        (sort_by_index (run_tasks small_host ping_wire backwards server).1)
batch_in_order_example =
    batch_in_order small_host ping_wire three backwards server backwards-Completes (omega arith)
