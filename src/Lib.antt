-- ===== src/Lib.antt =====
-- The private policy boundary, the verdict protocol, the reporting path and static analyses of
-- ditto-screener.
--
-- A screener claims submissions from a platform, screens each one (download, build, serve, private
-- policy) and posts a signed verdict. This library models the policy that decides, the request that
-- carries the decision, the client that delivers it, and two of the static analyses of a submission:
-- the inspection of opaque files and the masks of source text.
--
--  * Prelude: exceptions as values (Results), actions that pass a state on and may raise (Actions),
--    Python's tests, integers, lists and texts. The state `W` of an action is whatever the code
--    talks to: the submission's container, the reviewer, the platform, files.
--  * Json: JSON values and `json.dumps` with sorted keys and compact separators.
--  * Policy: ditto_screener/policy.py. Decision has the records with the checks of their
--    `__post_init__`; Engine is `PolicyEngine`, whose `evaluate` is `selector_loop`, then
--    `challenge_loop`, then `conclude`; Modules has the module classes with their `evaluate`
--    (SourceReview, Oracle, Pack, Selectors); Build and Load are `_build_module` and
--    `load_policy_engine`; Preexecution has the two decisions made before a build. Default puts the
--    default policy's modules and the engine together; Release is about rotations without a
--    challenge pack, Early about Preexecution.
--  * Protocol: packages/ditto-screening-protocol/ditto_screening_protocol. Result and Valid are
--    `ScreenResultRequest` of models.py with its field constraints (Patterns) and its three
--    validators, Signing is `verdict_signing_message` of signing.py.
--  * Worker: the part of `_screen_one` in ditto_screener/worker.py from the decision to the signed
--    request that `submit_result` posts. Agree and Accepted compare it with the protocol.
--  * Platform: ditto_screener/platform.py. Submit is the retry loop of `submit_result`, Upload is
--    `_image_request` and `upload_screened_image`.
--  * Binary: ditto_screener/binary_analysis.py. Bytes, Varint and Fields are Python's `bytes`,
--    `_read_varint` and `_protobuf_fields`; Onnx, Safetensors and Formats the details of those
--    formats; Detect is `_detect_format`, Sample is `sample_stream` and Strings
--    `_printable_strings`.
--  * Signals: ditto_screener/source_signals.py. Comments is `_mask_comments` and Literals
--    `_mask_string_literals`, whose rounds take the text from the index on, since the scanners look
--    only forward; Paths has the tests of paths.
--  * Heartbeat: ditto_screener/heartbeat.py. Stages is about `source_review_progress_stage`, Docker
--    about `probe_docker_health`.
--
-- A gate that is not modelled stands between the policy and the worker; what the worker relies on
-- from it is the record `IsScreened` of Worker/Accepted.
--
-- Parameters, since their code is not in the repository: the hash function (Hashlib, of which only
-- the form of a digest is assumed), the key pair, pydantic's `model_validate`, httpx, asyncio, files
-- and streams, subprocesses, `json.loads`, `zipfile`, UTF-8 decoding, `str.casefold` and `str.lower`,
-- and `==` of two dicts. A UUID is its text and a timeout is a fraction. Logging is left out.
--
-- Loops are structural, except some on fuel. `_image_request` makes `_IMAGE_UPLOAD_ATTEMPTS` rounds,
-- as the source does, and a varint has ten groups at most. `upload_screened_image` gets one round for
-- each byte of the archive: no part is empty, so that is enough. `_protobuf_fields` gets one more
-- than the bytes of its data, `sample_stream` one more than the bytes that it hashes at most, and the
-- masks get the length of their text; each of their rounds consumes a byte or a character. The
-- digits of a number get its value plus one.
--
-- Not modelled: the gate with Docker, the source review and L2 review with their model providers, the
-- fake gateway, the regular expressions of the static analyses, floating-point entropy, the dicts
-- that put a binary's report together, the rest of the heartbeats, review settings, configuration
-- and process start-up.
pub mod Prelude
pub mod Json
pub mod Policy
pub mod Protocol
pub mod Worker
pub mod Platform
pub mod Binary
pub mod Signals
pub mod Heartbeat
