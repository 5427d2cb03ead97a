-- ===== src/Tests/Staged.antt =====
-- A staged load whose job fails; the world is the list of the objects.
use bqsink.Common.{ℕ, String, ◌≡◌, refl, true, false, some, List, [], ◌∷◌}
use bqsink.Fault.{message, wrap, ok, err}
use bqsink.Staging.{
  Settings, Clients, validate_staging, starts_with, run_loader, stage, clean_up, load_staged,
}

abbrev rest_of : List String → List String
rest_of [] = []
rest_of (n ∷ ns) = ns

abbrev cloud : Clients (List String) ℕ
cloud = record {
  write_object = λ n b w. (ok tt, w);
  close_object = λ n w. (ok tt, n ∷ w);
  delete_object = λ n w. (ok tt, rest_of w);
  is_not_exist = λ e. false;
  run_job = λ s w. (ok 0, w);
  wait_job = λ j w. (ok (some (message "bad rows")), w);
  warn = λ n e w. w;
}

abbrev bucket : Settings
bucket = record { has_client = true; bucket = "rows"; keep = false }

-- The failure of the job is reported, and the object is gone.
fails :
    load_staged cloud bucket "1-1.json" [] ("other" ∷ [])
    ≡ (err (wrap "bqsink: load job failed" (message "bad rows")), "other" ∷ [])
unfolding load_staged stage clean_up run_loader validate_staging starts_with
fails = refl

refuses_scheme :
    validate_staging (record bucket { bucket = "gs://rows" })
    ≡ err (message "bqgcs: Staging: Bucket wants the name alone without the gs:// scheme")
unfolding validate_staging starts_with
refuses_scheme = refl
