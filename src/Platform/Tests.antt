-- ===== src/Platform/Tests.antt =====
-- Runs of the platform client of ditto_screener/platform.py against a small platform. The outside
-- counts the calls made to it.
use ditto_screener.Prelude.{
  ℕ, ◌+◌, ◌≡◌, ◌↔◌, refl, arith, String, some, List, [], ◌∷◌, ◌==◌, nat_equality, if◌then◌else◌,
}
use ditto_screener.Prelude.Results.{Result, ok}
use ditto_screener.Prelude.Actions.{Action}
use ditto_screener.Json.{Json, null}
use ditto_screener.Platform.Http.{Response}
use ditto_screener.Platform.Submit.{submit, verdict_retry_delays}
use ditto_screener.Platform.Submit.Retries.{Delivers, submit-exact}
use ditto_screener.Platform.Upload.{Upload, CompletedPart, Remote, transfer, parts_loop}
use ditto_screener.Platform.Upload.Parts.{
  Sent, Completed, total, records, transfer_complete, parts_loop-fuel,
}

abbrev answer : ℕ → Response
answer status = record { status_code = status; body = null; etag = some "etag" }

-- The platform restarts during the first post.
abbrev post : Action ℕ Response
post w = (ok (answer (if w == 0 then 503 else 200)), w + 1)

abbrev sleep : ℕ → Action ℕ (Unit {0})
sleep delay w = (ok tt, w + 1)

abbrev parse : Json → Result String
parse body = ok "quarantined"

submitted : submit post sleep parse 0 ≡ (ok "quarantined", 3)
unfolding submit
submitted = refl

submit-exact_example :
    (submit post sleep parse 0 ≡ (ok "quarantined", 3))
    ↔ Delivers post sleep parse verdict_retry_delays 0 "quarantined" 3
submit-exact_example = submit-exact post sleep parse 0 "quarantined" 3

abbrev upload : Upload
upload = record { image_upload_id = "upload"; storage_upload_id = "storage"; part_size_bytes = 2 }

-- An archive of three bytes, read in two parts.
abbrev remote : Remote ℕ
remote = record {
  archive_size = λ w. (ok 3, w + 1);
  read = λ n w. (ok (if w == 0 then 1 ∷ 2 ∷ [] else 3 ∷ []), w + 1);
  send = λ call w. (ok (answer 200), w + 1);
  sleep = λ attempt w. (ok tt, w + 1);
  upload_from = λ body. ok upload;
  part_upload_from = λ body. ok body;
  verified_from = λ body. ok tt;
}

transferred : transfer remote 3 upload 0 ≡ (ok "upload", 8)
unfolding transfer
transferred = refl

transfer_complete_example :
    (ps : List (ℕ × CompletedPart)) × (w1 : ℕ) × Sent remote upload 1 ps 0 w1
    × (total ps ≡ 3)
    × Completed remote 3 upload (records ps) w1 8
    × ("upload" ≡ upload.image_upload_id)
transfer_complete_example =
    transfer_complete remote 3 upload 0 {upload_id = "upload"} {w' = 8} transferred

parts_loop-fuel_example :
    parts_loop remote 3 upload 9 1 0 [] 0 ≡ parts_loop remote 3 upload 3 1 0 [] 0
parts_loop-fuel_example = parts_loop-fuel remote 3 upload 3 9 1 0 [] 0 (omega arith) (omega arith)
