-- ===== src/Kube/Examples.antt =====
-- The client on the server in memory, and a choice among pods.
use vercel_clone.Prelude.{◌≡◌, refl, none, some, List, [], ◌∷◌}
use vercel_clone.Prelude.Text.{Text, codes, text_key}
use vercel_clone.Prelude.Result.{ok}
use vercel_clone.Prelude.Json.{Fields, object, text, fields_of, str, obj, ◌⇒◌}
use vercel_clone.Kube.{PodItem, set_version, version_of, apply}
use vercel_clone.Kube.Contents.{Applies}
use vercel_clone.Kube.Contents.Applied.{apply_refines}
use vercel_clone.Kube.Memory.{State, memory, selected}
use vercel_clone.Kube.Memory.Laws.{memory_contents}
use vercel_clone.Kube.Memory.Deletions.{memory_deletions}
use vercel_clone.Kube.Queries.{
  list_resource_names, delete_names, delete_resource, delete_all_by_label,
}
use vercel_clone.Kube.Queries.Deletion.{ClearsSelected, delete_all_by_label-ClearsSelected}
use vercel_clone.Kube.Pods.{best_pod}
use vercel_clone.Kube.Pods.Best.{IsBest, best_pod-IsBest}

abbrev web_metadata : Fields
web_metadata =
    fields_of ("name" ⇒ text "web" ∷ "labels" ⇒ object ("paas.project" ⇒ text "blog" ∷ []) ∷ [])

abbrev web : Text → Fields
web image = fields_of ("metadata" ⇒ obj web_metadata ∷ "spec" ⇒ str image ∷ [])

abbrev deployments : Text
deployments = codes "/apis/apps/v1/namespaces/ada/deployments"

abbrev busy : State
busy = ((deployments, codes "web"), (2, obj (web (codes "old")))) ∷ []

apply_refines_example :
    Applies memory_contents deployments
      (codes "web")
      (obj (web (codes "new")))
      busy
      (apply memory deployments (codes "web") (obj (web (codes "new"))) busy)
apply_refines_example =
    apply_refines memory_contents deployments (codes "web") (web (codes "new")) web_metadata busy
      refl refl

web_is_replaced : (apply memory deployments (codes "web") (obj (web (codes "new"))) busy).0 ≡ ok tt
unfolding apply set_version version_of
web_is_replaced = refl

delete_all_by_label-ClearsSelected_example :
    ClearsSelected memory_deletions deployments (codes "paas.project=blog") busy (
      delete_all_by_label memory
        (codes "ada")
        (codes "apis/apps/v1")
        (codes "deployments")
        (codes "paas.project=blog")
        busy)
delete_all_by_label-ClearsSelected_example =
    delete_all_by_label-ClearsSelected memory_deletions (codes "ada") (codes "apis/apps/v1")
      (codes "deployments") (codes "paas.project=blog") busy

web_is_deleted :
    delete_all_by_label memory
      (codes "ada")
      (codes "apis/apps/v1")
      (codes "deployments")
      (codes "paas.project=blog")
      busy
    ≡ (ok tt, [])
unfolding delete_all_by_label list_resource_names delete_names delete_resource
web_is_deleted = refl

web_is_selected : selected deployments (codes "paas.project=blog") busy ≡ codes "web" ∷ []
web_is_selected = refl

abbrev pods : List PodItem
pods =
    record {
      name = codes "a";
      creation_timestamp = 9;
      deletion_timestamp = some 12;
      phase = codes "Running";
    }
    ∷ record {
      name = codes "b";
      creation_timestamp = 8;
      deletion_timestamp = none;
      phase = codes "Pending";
    }
    ∷ record {
      name = codes "c";
      creation_timestamp = 5;
      deletion_timestamp = none;
      phase = codes "Running";
    }
    ∷ []

best_pod-IsBest_example : IsBest pods (best_pod none pods)
best_pod-IsBest_example = best_pod-IsBest pods
