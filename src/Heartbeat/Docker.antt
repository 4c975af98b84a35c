-- ===== src/Heartbeat/Docker.antt =====
-- `probe_docker_health` of ditto_screener/heartbeat.py.
use ditto_screener.Prelude.{
  ℕ, suc, ◌≤◌, min, ◌≡◌, ◌⊎◌, refl, ap, codes, Bool, true, false, Option, none, some, List, [], ◌∷◌,
  ◌++◌, arith, length, take, length-take, ltb, if◌then◌else◌, Bool-cases, inl, inr,
}
use ditto_screener.Prelude.Results.{Result, ok, raised}
use ditto_screener.Binary.Bytes.{starts_with}
use ditto_screener.Signals.Paths.{occurs}
use ditto_screener.Heartbeat.{
  healthy, degraded, unavailable, DockerHealth, check_docker_health, docker_health, count_unhealthy,
  probe_docker_health,
}

-- The text has the part in it.
abbrev pub Contains : List ℕ → List ℕ → Type 0
Contains part text = (front back : List ℕ) × (text ≡ front ++ (part ++ back))

-- The line says "(unhealthy)" in lower case.
abbrev pub Says : (List ℕ → List ℕ) → List ℕ → Type 0
Says lower line = Contains (codes "(unhealthy)") (lower line)

-- So many of the lines say so.
abbrev pub SayUnhealthy : (List ℕ → List ℕ) → List (List ℕ) → ℕ → Type 0
SayUnhealthy lower [] n = n ≡ 0
SayUnhealthy lower (line ∷ lines) n =
    (Says lower line × (m : ℕ) × (n ≡ suc m) × SayUnhealthy lower lines m)
    ⊎ ((¬ Says lower line) × SayUnhealthy lower lines n)

starts_with-append :
    (part text : List ℕ) → starts_with part text ≡ true → (back : List ℕ) × (text ≡ part ++ back)
starts_with-append [] text h = (text, refl)
starts_with-append (x ∷ xs) [] h = cc
starts_with-append (x ∷ xs) (y ∷ ys) h =
    let (back, e) = starts_with-append xs ys (ground (arith, h)) in
    let same : x ≡ y = ground (arith, h) in (back, cc (same, e))

starts_with_front : (part back : List ℕ) → starts_with part (part ++ back) ≡ true
starts_with_front [] back = refl
starts_with_front (x ∷ xs) back = ground (arith, starts_with_front xs back)

occurs-Contains :
    (c : ℕ) (part text : List ℕ) → occurs (c ∷ part) text ≡ true → Contains (c ∷ part) text
occurs-Contains c part [] h = cc
occurs-Contains c part (x ∷ xs) h = elim (Bool-cases (starts_with (c ∷ part) (x ∷ xs))) [
  | inl q ↦ let (back, e) = starts_with-append (c ∷ part) (x ∷ xs) q in ([], back, e)
  | inr q ↦
      let later : occurs (c ∷ part) xs ≡ true = rw q at h in
      let (front, back, e) = occurs-Contains c part xs later in
      (x ∷ front, back, ap (λ (r : List ℕ). x ∷ r) e)
]

occurs_behind :
    (c : ℕ) (part front back : List ℕ) → occurs (c ∷ part) (front ++ ((c ∷ part) ++ back)) ≡ true
occurs_behind c part [] back = rw (starts_with_front (c ∷ part) back) refl
occurs_behind c part (x ∷ front) back = ground (arith, occurs_behind c part front back)

count_unhealthy-SayUnhealthy :
    (lower : List ℕ → List ℕ) (lines : List (List ℕ))
    → SayUnhealthy lower lines (count_unhealthy lower lines)
count_unhealthy-SayUnhealthy lower [] = refl
count_unhealthy-SayUnhealthy lower (line ∷ lines) =
    let ih = count_unhealthy-SayUnhealthy lower lines in
    elim (Bool-cases (occurs (codes "(unhealthy)") (lower line))) [
      | inl q ↦ inl (
        occurs-Contains b'(' (codes "unhealthy)") (lower line) q,
        count_unhealthy lower lines,
        rw q refl,
        ih,
      )
      | inr q ↦ inr (
        λ (front, back, e). cc (
          q,
          ap (occurs (codes "(unhealthy)")) e,
          occurs_behind b'(' (codes "unhealthy)") front back,
        ),
        rw q ih,
      )
    ]

count_unhealthy-length :
    (lower : List ℕ → List ℕ) (lines : List (List ℕ)) → count_unhealthy lower lines ≤ length lines
count_unhealthy-length lower [] = omega arith
count_unhealthy-length lower (line ∷ lines) = ground (arith, count_unhealthy-length lower lines)

-- The health of a daemon that lists these lines.
pub record HealthOf (lower : List ℕ → List ℕ) (lines : List (List ℕ)) (d : DockerHealth)
    : Type 0 where
  pub running : d.running_containers ≡ min 1000 (length lines)
  pub unhealthy : SayUnhealthy lower (take 1000 lines) d.unhealthy_containers
  pub status :
      ((d.status ≡ healthy) × (d.unhealthy_containers ≡ 0))
      ⊎ ((d.status ≡ degraded) × (1 ≤ d.unhealthy_containers))

-- What the probe reports for what the command came to.
abbrev pub Reported :
    (List ℕ → List ℕ) → Result (Option (Bool × List (List ℕ))) → Result DockerHealth → Type 0
Reported lower (raised exn) report = report ≡ raised exn
Reported lower (ok (some (true, lines))) report =
    (d : DockerHealth) × (report ≡ ok d) × HealthOf lower lines d
Reported lower (ok failed) report =
    report ≡ ok record { status = unavailable; running_containers = 0; unhealthy_containers = 0 }

listed :
    (running unhealthy : ℕ)
    → unhealthy ≤ running
    → running ≤ 1000
    → docker_health (if ltb 0 unhealthy then degraded else healthy) running unhealthy
      ≡ ok record {
        status = if ltb 0 unhealthy then degraded else healthy;
        running_containers = running;
        unhealthy_containers = unhealthy;
      }
unfolding check_docker_health
listed running unhealthy h most =
    let a : ltb 1000 running ≡ false = ground (arith, most) in
    let b : ltb 1000 unhealthy ≡ false = ground (arith, h, most) in
    let c : ltb running unhealthy ≡ false = ground (arith, h) in
    elim (Bool-cases (ltb 0 unhealthy)) [
      | inl e ↦ rw (a, b, c, e) refl
      | inr e ↦ rw (a, b, c, e) refl
    ]

no_daemon :
    docker_health unavailable 0 0
    ≡ ok record { status = unavailable; running_containers = 0; unhealthy_containers = 0 }
unfolding check_docker_health
no_daemon = refl

-- The probe raises only what running the command raised and is not caught. It reports an unavailable
-- daemon if the command could not run or failed. Else it counts the first 1,000 lines as running
-- containers, and those of them that have "(unhealthy)" in them, in lower case, as unhealthy; the
-- daemon is degraded if there is such a line, and else healthy.
pub probe_docker_health-Reported :
    (lower : List ℕ → List ℕ) (run : Result (Option (Bool × List (List ℕ))))
    → Reported lower run (probe_docker_health lower run)
unfolding probe_docker_health
probe_docker_health-Reported lower (raised exn) = refl
probe_docker_health-Reported lower (ok none) = no_daemon
probe_docker_health-Reported lower (ok (some (false, lines))) = no_daemon
probe_docker_health-Reported lower (ok (some (true, lines))) =
    let statuses = take 1000 lines in
    let most : length statuses ≡ min 1000 (length lines) = length-take 1000 lines in
    (
      _,
      listed (length statuses) (count_unhealthy lower statuses)
          (count_unhealthy-length lower statuses) (omega (arith, most)),
      record {
        running = most;
        unhealthy = count_unhealthy-SayUnhealthy lower statuses;
        status = status_for (count_unhealthy lower statuses);
      },
    )
  where
    status_for :
        (n : ℕ)
        → (((if ltb 0 n then degraded else healthy) ≡ healthy) × (n ≡ 0))
          ⊎ (((if ltb 0 n then degraded else healthy) ≡ degraded) × (1 ≤ n))
    status_for n = elim (Bool-cases (ltb 0 n)) [
      | inl q ↦ inr (rw q refl, ground (arith, q))
      | inr q ↦ inl (rw q refl, ground (arith, q))
    ]
