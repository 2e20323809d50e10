-- ===== src/Tests/Api.antt =====
-- The theorems on admission, at the sample resource.
use atom_operator.Prelude.{◌≡◌, refl, none, [], String, inl, List, ◌∷◌, All, Distinct}
use atom_operator.Api.V3.{Entry}
use atom_operator.Api.V3.Validation.{spec_service, entry_errors, validate_dataset_feeds}
use atom_operator.Api.V3.Validation.Paths.{IsAt, entry_errors-IsAt}
use atom_operator.Api.V3.Validation.Feeds.{FeedOk, feed_names, validate_dataset_feeds-eq-nil_iff}
use atom_operator.Api.V3.OwnerCheck.{validate_owner_info}
use atom_operator.Api.V3.OwnerCheck.Laws.{Accepted, validate_owner_info-eq-nil_iff}
use atom_operator.Api.V3.Admission.{validate_create, validate_update}
use atom_operator.Api.V3.Admission.Laws.{
  IsSound, IsSuccessor, validate_create-error_iff, validate_update-error_iff,
}
use atom_operator.Webhook.{validate_update_object}
use atom_operator.Webhook.Laws.{validate_update_object-error_iff}
use atom_operator.Tests.Sample.{checks, atom, feeds, owner_info, client, entry}

no_errors : validate_dataset_feeds checks atom ≡ []
unfolding validate_dataset_feeds
no_errors = refl

feeds_example :
    All (FeedOk atom.spec.service.service_metadata_links) feeds × Distinct (feed_names feeds)
feeds_example = (validate_dataset_feeds-eq-nil_iff checks atom).0 no_errors

owner_ok : validate_owner_info client atom ≡ []
unfolding validate_owner_info
owner_ok = refl

owner_example : Accepted atom (inl owner_info)
owner_example = (validate_owner_info-eq-nil_iff client atom).0 owner_ok

sound : IsSound checks client atom
sound = record {
  feeds_ok = ((validate_dataset_feeds-eq-nil_iff checks atom).0 no_errors).0;
  names_distinct = ((validate_dataset_feeds-eq-nil_iff checks atom).0 no_errors).1;
  base_url_reachable = refl;
  owner_accepted = (validate_owner_info-eq-nil_iff client atom).0 owner_ok;
}

create_example : (validate_create checks client atom).error ≡ none
create_example = (validate_create-error_iff checks client atom).1 (refl, sound)

successor : IsSuccessor checks atom atom
successor = record {
  labels_ok = refl;
  urls_kept = refl;
  base_url_kept = λ e. refl;
  old_base_url_reachable = λ urls e n. absurd (n refl);
}

update_example : (validate_update checks client atom atom).error ≡ none
update_example = (validate_update-error_iff checks client atom atom).1 (successor, sound)

webhook_update_example : (validate_update_object checks client (inl atom) (inl atom)).error ≡ none
webhook_update_example =
    (validate_update_object-error_iff checks client (inl atom) (inl atom)).1 (successor, sound)

abbrev twins : List (Entry String)
twins = entry "e" [] ∷ entry "e" [] ∷ []

paths_example : All (IsAt spec_service 0 [] twins) (entry_errors checks spec_service 0 [] twins)
paths_example = entry_errors-IsAt checks spec_service 0 [] twins
