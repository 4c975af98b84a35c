-- ===== src/Platform/Upload.antt =====
-- `_image_request`, `upload_screened_image` and `_abort_screened_image_upload` of
-- ditto_screener/platform.py: a screened image is uploaded in parts, completed, or aborted.
pub mod Parts
use ditto_screener.Prelude.{
  ℕ, zero, suc, ◌+◌, ◌*◌, ◌^◌, String, Bool, true, false, not, ◌&&◌, ◌||◌, Option, none, some, List,
  [], ◌∷◌, ◌++◌, length, is_empty, contains, leb, ltb, len, ◌==◌, nat_equality, text_equality,
  if◌then◌else◌,
}
use ditto_screener.Prelude.Results.{
  Result, ok, raised, Exn, http_error, platform_error, value_error, assertion_error, raise_if,
}
use ditto_screener.Prelude.Actions.{Action, pure, raise, lift, ◌>>=◌, ◌>>◌}
use ditto_screener.Json.{Json}
use ditto_screener.Policy.Hash.{is_sha256}
use ditto_screener.Protocol.Patterns.{is_image_id, is_image_ref}
use ditto_screener.Platform.Http.{Response, Round, over, again, settle, is_transport}

-- `ScreenedImageUploadResponse`
pub record Upload : Type 0 where
  pub image_upload_id : String
  pub storage_upload_id : String
  pub part_size_bytes : ℕ

-- `ScreenedImageCompletedPart`
pub record CompletedPart : Type 0 where
  pub part_number : ℕ
  pub etag : String

-- The requests of an upload. The lease, the digest and the identity of the image are the same in all
-- of them and are left to `send`.
pub data ImageCall : Type 0 where
  initiate : ImageCall
  mint : Upload → ℕ → ℕ → ImageCall
  put : Json → List ℕ → ImageCall
  complete : Upload → List CompletedPart → ImageCall
  abort : Upload → ImageCall

-- The archive file, the HTTP client, `asyncio.sleep` in half seconds, and the `model_validate` of the
-- responses. The answer to `mint` says where and with which headers a part is put.
pub record Remote (W : Type 0) : Type 0 where
  pub archive_size : Action W ℕ
  pub read : ℕ → Action W (List ℕ)
  pub send : ImageCall → Action W Response
  pub sleep : ℕ → Action W (Unit {0})
  pub upload_from : Json → Result Upload
  pub part_upload_from : Json → Result Json
  pub verified_from : Json → Result (Unit {0})

-- `_IMAGE_UPLOAD_ATTEMPTS`
abbrev pub image_upload_attempts : ℕ
image_upload_attempts = 3

abbrev pub transient_image_statuses : List ℕ
transient_image_statuses = 429 ∷ 500 ∷ 502 ∷ 503 ∷ 504 ∷ []

-- One round of `_image_request`.
unfoldable pub judge_image : List ℕ → Bool → Result Response → Round Response
judge_image accepted last (raised e) =
    if is_transport e
    then (if last then over (raised platform_error) else again)
    else over (raised e)
judge_image accepted last (ok response) =
    if contains accepted response.status_code
    then over (ok response)
    else if not (contains transient_image_statuses response.status_code)
    then over (raised platform_error)
    else if last
    then over (raised platform_error)
    else again

-- The constraints of `ScreenedImageUploadRequest`.
fits_upload : String → ℕ → String → String → Bool
fits_upload sha256 size_bytes image_id image_ref =
    is_sha256 sha256
    && ltb 0 size_bytes
    && leb size_bytes (8 * 1024 ^ 3)
    && is_image_id image_id
    && is_image_ref image_ref

-- The constraints of `ScreenedImagePartUploadRequest`.
abbrev pub fits_part : ℕ → ℕ → Bool
fits_part part_number size_bytes =
    leb 1 part_number && leb part_number 10000 && ltb 0 size_bytes && leb size_bytes (5 * 1024 ^ 3)

-- `validate_part_sequence`: the numbers count up from 1.
unfoldable pub counts_from : ℕ → List CompletedPart → Bool
counts_from n [] = true
counts_from n (part ∷ parts) = part.part_number == n && counts_from (suc n) parts

-- The checks on `parts` in `ScreenedImageUploadCompleteRequest`.
unfoldable pub check_parts : List CompletedPart → Result (List CompletedPart)
unfolding counts_from
check_parts parts =
    if leb 1 (length parts) && leb (length parts) 10000 && counts_from 1 parts
    then ok parts
    else raised value_error

module _ {W : Type 0} (remote : Remote W) where
  -- The loop of `_image_request`, with the rounds that are left.
  unfoldable pub image_loop : List ℕ → ImageCall → ℕ → ℕ → Action W Response
  unfolding judge_image
  image_loop accepted call zero attempt w = raise assertion_error w
  image_loop accepted call (suc left) attempt w =
      let (r, w1) = remote.send call w in
      settle (judge_image accepted (left == 0) r)
        (remote.sleep attempt >> image_loop accepted call left (suc attempt)) w1

  unfoldable pub image_request : List ℕ → ImageCall → Action W Response
  unfolding image_loop
  image_request accepted call = image_loop accepted call image_upload_attempts 1

  -- `ScreenedImageCompletedPart(...)`, for the response's `etag`
  unfoldable pub completed_part : ℕ → Option String → Result CompletedPart
  completed_part part_number none = raised platform_error
  completed_part part_number (some etag) =
      if etag == ""
      then raised platform_error
      else if leb (len etag) 256
      then ok (record { part_number = part_number; etag = etag })
      else raised value_error

  -- The body of the `while` loop: the part's size and its record.
  unfoldable pub upload_part : Upload → ℕ → Action W (ℕ × CompletedPart)
  unfolding image_request completed_part
  upload_part upload part_number = do
    part ← remote.read upload.part_size_bytes
    lift (raise_if (is_empty part) platform_error)
    lift (raise_if (not (fits_part part_number (length part))) value_error)
    minted ← image_request (200 ∷ []) (mint upload part_number (length part))
    target ← lift (remote.part_upload_from minted.body)
    stored ← image_request (200 ∷ 201 ∷ 204 ∷ []) (put target part)
    done ← lift (completed_part part_number stored.etag)
    pure (length part, done)

  module _ (size_bytes : ℕ) where
    -- `while uploaded_bytes < size_bytes`. Each part has a byte at least, so `size_bytes` rounds are
    -- enough.
    unfoldable pub parts_loop :
        Upload → ℕ → ℕ → ℕ → List CompletedPart → Action W (ℕ × List CompletedPart)
    unfolding upload_part
    parts_loop upload zero part_number uploaded completed =
        if ltb uploaded size_bytes then raise assertion_error else pure (uploaded, completed)
    parts_loop upload (suc fuel) part_number uploaded completed =
        if ltb uploaded size_bytes
        then (upload_part upload part_number >>= λ p.
            parts_loop upload fuel (suc part_number) (uploaded + p.0) (completed ++ (p.1 ∷ [])))
        else pure (uploaded, completed)

    -- From the first part to the platform's verification.
    unfoldable pub transfer : Upload → Action W String
    unfolding parts_loop image_request check_parts
    transfer upload = do
      sent ← parts_loop upload size_bytes 1 0 []
      lift (raise_if (not (sent.0 == size_bytes)) platform_error)
      size ← remote.archive_size
      lift (raise_if (not (size == size_bytes)) platform_error)
      parts ← lift (check_parts sent.1)
      response ← image_request (200 ∷ []) (complete upload parts)
      lift (remote.verified_from response.body)
      pure upload.image_upload_id

    -- `except BaseException`: the abort's own failure is suppressed.
    aborting : Upload → Result String × W → Result String × W
    unfolding image_request
    aborting upload (ok upload_id, w) = (ok upload_id, w)
    aborting upload (raised e, w) = (raised e, (image_request (200 ∷ []) (abort upload) w).1)

    unfoldable pub upload_screened_image : String → String → String → Action W String
    unfolding transfer aborting image_request fits_upload
    upload_screened_image sha256 image_id image_ref = do
      size ← remote.archive_size
      lift (raise_if (not (size == size_bytes)) platform_error)
      lift (raise_if (not (fits_upload sha256 size_bytes image_id image_ref)) value_error)
      response ← image_request (200 ∷ []) initiate
      upload ← lift (remote.upload_from response.body)
      λ w. aborting upload (transfer upload w)
