-- ===== src/Platform/Upload/Parts.antt =====
-- What a finished upload has sent, and that its loop ends.
use mathlib.Core.List.{append_assoc, append-nil}
use ditto_screener.Prelude.{
  ℕ, zero, suc, ◌+◌, ◌≤◌, ◌≡◌, refl, sym, ap, ◌∙◌, String, Bool, true, false, not, Option, none,
  some, List, [], ◌∷◌, ◌++◌, arith, length, is_empty, ltb, ◌==◌, nat_equality, text_equality,
  Bool-cases, inl, inr,
}
use ditto_screener.Prelude.Results.{Result, ok, raised, raise_if, platform_error, value_error}
use ditto_screener.Prelude.Actions.{Action, after, lift, after-eq-ok, pure-eq-ok, after-cong, pure}
use ditto_screener.Json.{Json}
use ditto_screener.Platform.Http.{Response}
use ditto_screener.Platform.Upload.{
  Upload, CompletedPart, Remote, mint, put, complete, image_request, completed_part, upload_part,
  parts_loop, transfer, check_parts, counts_from, fits_part,
}

abbrev pub total : List (ℕ × CompletedPart) → ℕ
total [] = 0
total (p ∷ ps) = p.0 + total ps

abbrev pub records : List (ℕ × CompletedPart) → List CompletedPart
records [] = []
records (p ∷ ps) = p.1 ∷ records ps

module _ {W : Type 0} (remote : Remote W) where
  -- A part of the archive: its bytes were read, an address was asked for a part of its number and
  -- size, the platform gave one, these bytes were put there, and the part is recorded under its
  -- number and the store's `etag`.
  pub record PartSent (upload : Upload) (n : ℕ) (p : ℕ × CompletedPart) (w w' : W) : Type 0 where
    pub part : List ℕ
    pub minted : Response
    pub target : Json
    pub stored : Response
    pub w1 : W
    pub w2 : W
    pub was_read : remote.read upload.part_size_bytes w ≡ (ok part, w1)
    pub size : length part ≡ p.0
    pub some_byte : 1 ≤ p.0
    pub was_minted :
        image_request remote (200 ∷ []) (mint upload n (length part)) w1 ≡ (ok minted, w2)
    pub addressed : remote.part_upload_from minted.body ≡ ok target
    pub was_put : image_request remote (200 ∷ 201 ∷ 204 ∷ []) (put target part) w2 ≡ (ok stored, w')
    pub number : (p.1).part_number ≡ n
    pub tagged : stored.etag ≡ some (p.1).etag

  -- The parts from number `n` on were sent one after the other.
  abbrev pub Sent : Upload → ℕ → List (ℕ × CompletedPart) → W → W → Type 0
  Sent upload n [] w w' = w ≡ w'
  Sent upload n (p ∷ ps) w w' = (w1 : W) × PartSent upload n p w w1 × Sent upload (suc n) ps w1 w'

  -- The platform has accepted the completing request for the parts, and its answer was verified.
  pub record Completed (size_bytes : ℕ) (upload : Upload) (parts : List CompletedPart) (w w' : W)
      : Type 0 where
    pub response : Response
    pub w1 : W
    pub unchanged : remote.archive_size w ≡ (ok size_bytes, w1)
    pub in_sequence : check_parts parts ≡ ok parts
    pub accepted : image_request remote (200 ∷ []) (complete upload parts) w1 ≡ (ok response, w')
    pub verified : remote.verified_from response.body ≡ ok tt

  after-lift-eq-ok :
      {A B : Type 0} (r : Result A) (w : W) (next : A → Action W B) {b : B} {w' : W}
      → after (lift r w) next ≡ (ok b, w')
      → (a : A) × (r ≡ ok a) × (next a w ≡ (ok b, w'))
  after-lift-eq-ok (ok a) w next h = (a, refl, h)
  after-lift-eq-ok {B = B} (raised e) w next h = cc (ap (λ (x : Result B × W). x.0) h)

  at_least : (a b : ℕ) → 1 ≤ a → a ≡ b → 1 ≤ b
  at_least a b h e = omega arith

  completed_part-number :
      (n : ℕ) (etag : Option String) {p : CompletedPart}
      → completed_part remote n etag ≡ ok p
      → (p.part_number ≡ n) × (etag ≡ some p.etag)
  unfolding completed_part
  completed_part-number n none h = cc
  completed_part-number n (some etag) h = (ground arith, ground arith)

  not_raised : (c : Bool) {u : Unit {0}} → raise_if c platform_error ≡ ok u → c ≡ false
  not_raised true h = cc
  not_raised false h = refl

  some_byte : (part : List ℕ) → is_empty part ≡ false → 1 ≤ length part
  some_byte [] h = cc
  some_byte (b ∷ bs) h = omega arith

  upload_part_lem :
      (upload : Upload) (n : ℕ) (w : W) {p : ℕ × CompletedPart} {w' : W}
      → upload_part remote upload n w ≡ (ok p, w')
      → PartSent upload n p w w'
  unfolding upload_part
  upload_part_lem upload n w {p} h =
      let (part, w1, e1, k1) = after-eq-ok (remote.read upload.part_size_bytes w) _ h in
      let (u, filled, k2) = after-lift-eq-ok (raise_if (is_empty part) platform_error) w1 _ k1 in
      let (u2, fits, k3) =
        after-lift-eq-ok (raise_if (not (fits_part n (length part))) value_error) w1 _ k2 in
      let (minted, w2, e4, k4) =
        after-eq-ok (image_request remote (200 ∷ []) (mint upload n (length part)) w1) _ k3 in
      let (target, addressed, k5) =
        after-lift-eq-ok (remote.part_upload_from minted.body) w2 _ k4 in
      let (stored, w3, e6, k6) =
        after-eq-ok (image_request remote (200 ∷ 201 ∷ 204 ∷ []) (put target part) w2) _ k5 in
      let (done, recorded, k7) = after-lift-eq-ok (completed_part remote n stored.etag) w3 _ k6 in
      let (same, o) = pure-eq-ok (length part, done) w3 k7 in
      let (number, tagged) = completed_part-number n stored.etag recorded in
      let size = ap (λ (x : ℕ × CompletedPart). x.0) same in
      let entry = ap (λ (x : ℕ × CompletedPart). x.1) same in
      record {
        part = part;
        minted = minted;
        target = target;
        stored = stored;
        w1 = w1;
        w2 = w2;
        was_read = e1;
        size = size;
        some_byte =
            at_least (length part) p.0 (some_byte part (not_raised (is_empty part) filled)) size;
        was_minted = e4;
        addressed = addressed;
        was_put = e6 ∙ ap (λ (v : W). (ok stored, v)) o;
        number = ap CompletedPart.part_number (sym entry) ∙ number;
        tagged = tagged ∙ ap (λ (x : CompletedPart). some x.etag) entry;
      }

  Sent-counts :
      (upload : Upload) (n : ℕ) (ps : List (ℕ × CompletedPart)) (w w' : W)
      → Sent upload n ps w w'
      → counts_from n (records ps) ≡ true
  unfolding counts_from
  Sent-counts upload n [] w w' s = refl
  Sent-counts upload n (p ∷ ps) w w' (w1, sent, more) =
      let q = (nat_equality.equal_iff (p.1).part_number n).1 sent.number in
      rw (q, Sent-counts upload (suc n) ps w1 w' more)

  module _ (size_bytes : ℕ) (upload : Upload) where
    abbrev pub Transferred : ℕ → ℕ → List CompletedPart → W → ℕ → List CompletedPart → W → Type 0
    Transferred n uploaded completed w size parts w' =
        (ps : List (ℕ × CompletedPart)) × Sent upload n ps w w'
        × (size ≡ uploaded + total ps)
        × (parts ≡ completed ++ records ps)
        × (size_bytes ≤ size)

    none_left :
        (n uploaded : ℕ) (completed : List CompletedPart) (w : W) {size : ℕ}
        {parts : List CompletedPart} {w' : W}
        → ltb uploaded size_bytes ≡ false
        → pure {A = ℕ × List CompletedPart} (uploaded, completed) w ≡ (ok (size, parts), w')
        → Transferred n uploaded completed w size parts w'
    none_left n uploaded completed w q h =
        let (same, o) = pure-eq-ok (uploaded, completed) w h in
        let s = ap (λ (x : ℕ × List CompletedPart). x.0) same in
        (
          [],
          o,
          omega (arith, s),
          sym (ap (λ (x : ℕ × List CompletedPart). x.1) same) ∙ sym (append-nil completed),
          ground (arith, s),
        )

    parts_loop-Sent :
        (fuel n uploaded : ℕ) (completed : List CompletedPart) (w : W) {size : ℕ}
        {parts : List CompletedPart} {w' : W}
        → parts_loop remote size_bytes upload fuel n uploaded completed w ≡ (ok (size, parts), w')
        → Transferred n uploaded completed w size parts w'
    unfolding parts_loop
    parts_loop-Sent zero n uploaded completed w {size} {parts} h =
        elim (Bool-cases (ltb uploaded size_bytes)) [
          | inl q ↦ absurd (cc (ap (λ (x : Result (ℕ × List CompletedPart) × W). x.0) (rw q at h)))
          | inr q ↦ none_left n uploaded completed w q (rw q at h)
        ]
    parts_loop-Sent (suc fuel) n uploaded completed w {size} {parts} h =
        elim (Bool-cases (ltb uploaded size_bytes)) [
          | inl q ↦
              let (p, w1, e, k) = after-eq-ok (upload_part remote upload n w) _ (rw q at h) in
              let first = upload_part_lem upload n w e in
              let (ps, sent, sum, rest, enough) =
                parts_loop-Sent fuel (suc n) (uploaded + p.0) (completed ++ (p.1 ∷ [])) w1 k in
              (
                p ∷ ps,
                (w1, first, sent),
                omega (arith, sum),
                rest ∙ append_assoc completed (p.1 ∷ []) (records ps),
                enough,
              )
          | inr q ↦ none_left n uploaded completed w q (rw q at h)
        ]

    parts_loop_done :
        (fuel n uploaded : ℕ) (completed : List CompletedPart) (w : W)
        → ltb uploaded size_bytes ≡ false
        → parts_loop remote size_bytes upload fuel n uploaded completed w
          ≡ pure {A = ℕ × List CompletedPart} (uploaded, completed) w
    unfolding parts_loop
    parts_loop_done zero n uploaded completed w q = rw q
    parts_loop_done (suc fuel) n uploaded completed w q = rw q

    -- As many rounds as there are bytes left are enough: more of them make no difference.
    pub parts_loop-fuel :
        (fuel more n uploaded : ℕ) (completed : List CompletedPart) (w : W)
        → size_bytes ≤ uploaded + fuel
        → fuel ≤ more
        → parts_loop remote size_bytes upload more n uploaded completed w
          ≡ parts_loop remote size_bytes upload fuel n uploaded completed w
    unfolding parts_loop
    parts_loop-fuel zero more n uploaded completed w h le =
        let q : ltb uploaded size_bytes ≡ false = ground arith in
        parts_loop_done more n uploaded completed w q
        ∙ sym (parts_loop_done 0 n uploaded completed w q)
    parts_loop-fuel (suc fuel) zero n uploaded completed w h le = absurd (omega arith)
    parts_loop-fuel (suc fuel) (suc more) n uploaded completed w h le =
        elim (Bool-cases (ltb uploaded size_bytes)) [
          | inl q ↦ rw q (
              after-cong (upload_part remote upload n w) _ _ (λ p w1 e.
                let byte = (upload_part_lem upload n w e).some_byte in
                parts_loop-fuel fuel more (suc n) (uploaded + p.0) (completed ++ (p.1 ∷ [])) w1
                  (omega (arith, byte)) (omega arith)))
          | inr q ↦ rw q
        ]

  check_parts_self :
      (parts : List CompletedPart) {checked : List CompletedPart}
      → check_parts parts ≡ ok checked
      → (check_parts parts ≡ ok parts) × (parts ≡ checked)
  unfolding check_parts
  check_parts_self parts h = (ground arith, ground arith)

  from_zero : (a b c : ℕ) → a ≡ 0 + c → a ≡ b → c ≡ b
  from_zero a b c p q = omega arith

  same_size : (a b : ℕ) {u : Unit {0}} → raise_if (not (a == b)) platform_error ≡ ok u → a ≡ b
  same_size a b h = ground arith

  -- An image whose upload is returned was sent whole. Parts 1, 2, ... were read from the archive,
  -- none of them empty; for each the platform gave an address, the bytes read were put there, and
  -- the store's `etag` was recorded. Their sizes add up to the declared size, which the archive still
  -- has at the end, and the platform accepted the request that completes the upload with exactly the
  -- recorded parts.
  pub transfer_complete :
      (size_bytes : ℕ) (upload : Upload) (w : W) {upload_id : String} {w' : W}
      → transfer remote size_bytes upload w ≡ (ok upload_id, w')
      → (ps : List (ℕ × CompletedPart)) × (w1 : W) × Sent upload 1 ps w w1
        × (total ps ≡ size_bytes)
        × Completed size_bytes upload (records ps) w1 w'
        × (upload_id ≡ upload.image_upload_id)
  unfolding transfer
  transfer_complete size_bytes upload w {w' = w'} h =
      let ((size, parts), w1, e1, k1) =
        after-eq-ok (parts_loop remote size_bytes upload size_bytes 1 0 [] w) _ h in
      let (u, sized, k2) =
        after-lift-eq-ok (raise_if (not (size == size_bytes)) platform_error) w1 _ k1 in
      let (again, w2, e3, k3) = after-eq-ok (remote.archive_size w1) _ k2 in
      let (u4, kept, k4) =
        after-lift-eq-ok (raise_if (not (again == size_bytes)) platform_error) w2 _ k3 in
      let (checked, checks, k5) = after-lift-eq-ok (check_parts parts) w2 _ k4 in
      let (response, w3, e6, k6) =
        after-eq-ok (image_request remote (200 ∷ []) (complete upload checked) w2) _ k5 in
      let (u7, verified, k7) = after-lift-eq-ok (remote.verified_from response.body) w3 _ k6 in
      let (ps, sent, sum, rest, enough) =
        parts_loop-Sent size_bytes upload size_bytes 1 0 [] w e1 in
      let (done, o) = pure-eq-ok upload.image_upload_id w3 k7 in
      let (valid, same) = check_parts_self parts checks in
      let finished : Completed size_bytes upload parts w1 w' = record {
        response = response;
        w1 = w2;
        unchanged = e3 ∙ ap (λ (s : ℕ). (ok s, w2)) (same_size again size_bytes kept);
        in_sequence = valid;
        accepted =
            ap
              (λ (cs : List CompletedPart). image_request remote (200 ∷ []) (complete upload cs) w2)
              same
            ∙ e6
            ∙ ap (λ (v : W). (ok response, v)) o;
        verified = verified;
      } in
      (
        ps,
        w1,
        sent,
        from_zero size size_bytes (total ps) sum (same_size size size_bytes sized),
        rw rest at finished,
        sym done,
      )
