-- ===== src/Store/Dynamo/Examples.antt =====
-- The DynamoDB backend over a test service that nothing changes.
use mathlib.Core.List.Perm
use super_victor.Prelude.{false, List, [], ◌∷◌, map, if◌then◌else◌}
use super_victor.Prelude.Text.{Text, codes, ◌≟◌}
use super_victor.Models.{UplinkRecord}
use super_victor.Store.Plain.{newer, fixed}
use super_victor.Store.Aws.{Attribute, s, other, Item, SdkError, Answer, done, failed, Client}
use super_victor.Store.Dynamo.{device_to_item}
use super_victor.Store.Dynamo.Laws.{stored_item}
use super_victor.Store.Dynamo.Answers.{Latest}

abbrev throttled : SdkError
throttled = record {
  display = codes "service error";
  service_display = codes "throttled";
  is_conditional_check_failed = false;
}

abbrev newest_of : Text → List (UplinkRecord Text)
newest_of id = if codes "dev-1" ≟ id then newer ∷ [] else []

abbrev item_answer : Attribute → Answer (List Item)
item_answer (s id) = done (map stored_item (newest_of id))
item_answer (other t) = failed throttled

abbrev service : Client (Unit {0})
service = record {
  put_item = λ table item condition state. (failed throttled, state);
  get_item = λ table key state. (failed throttled, state);
  scan = λ table state. (done (map device_to_item fixed.devices), state);
  update_item = λ table key update name v condition state. (failed throttled, state);
  query = λ table condition v forward limit state. (item_answer v.1, state);
}
