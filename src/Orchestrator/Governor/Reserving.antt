-- ===== src/Orchestrator/Governor/Reserving.antt =====
-- Admission: `reserve` of packages/orchestrator/src/governor.ts.
pub mod Holds
pub mod Admission
pub mod Estimates
pub mod Costs
pub mod Solvency
pub mod Upkeep
pub mod Limits
pub mod Turns
use gateline.Prelude.{
  ℕ, ◌+◌, ℤ, ◌+ℤ◌, ltb_ℤ, String, Bool, false, not, ◌&&◌, Option, none, some, List, [], ◌∷◌, ◌++◌,
  ◌==◌, ltb, length, is_empty, join, if◌then◌else◌, lookup_text, has_text, put_text,
}
use gateline.Orchestrator.Governor.{
  GovernorLimit, concurrency, turn, spend, repository_spend, unregistered, GovernorRefusal,
  ReservationIntent, ReservationRequest, Slot, Governor, repository_id_key, label_of, names_for,
  cap_of, enforcing, spend_window, unseeded_repositories, occupied_slots,
}
use gateline.Orchestrator.Governor.Spend.{machine_spend, repo_spend, expire}
use gateline.Orchestrator.Governor.Waking.{freed, take_first, drop_first}
use gateline.Orchestrator.Governor.Registering.{no_options, register, mark_seeded}
use gateline.Orchestrator.Governor.Counting.{
  repeated_key, sum_intents, takes_over, fitting, superseded_keys, others_offered, first_other,
  drop_holds, new_slots, use_offer,
}

-- `ReserveResult`, or the error that a repeated key throws.
pub data Reserved : Type 0 where
  granted_with : List Slot → Option GovernorRefusal → Reserved
  repeated : String → Reserved

abbrev pub some_of : Option String → List String
some_of none = []
some_of (some s) = s ∷ []

-- `refuse(refusal, requestedUsd, repository)`.
unfoldable pub refuse : Governor → GovernorRefusal → ℤ → String → Reserved × Governor
refuse g r requested repository = (
  granted_with []
      (some (record r { names = names_for g (r.repository ∷ some_of r.held_for ++ r.unseeded) })),
  record g {
    waiters = put_text repository (record { limit = r.limit; requested_usd = requested }) g.waiters;
  },
)

abbrev pub base_refusal : Governor → GovernorLimit → ReservationRequest → GovernorRefusal
base_refusal g limit request = record {
  limit = limit;
  repository = request.repository;
  occupied = occupied_slots g;
  cap = cap_of g;
  requested = length request.intents;
  granted = 0;
  held_for = none;
  unseeded = [];
  names = none;
  projected_usd = none;
  closed_usd = none;
  requested_usd = none;
  limit_usd = none;
  window_ms = none;
}

-- The state after the grant of the first `n` intents.
unfoldable pub take_slots :
    Governor → ReservationRequest → String → ℕ → List ReservationIntent → List String → Governor
unfolding drop_holds new_slots
take_slots g request repository n take superseded = record g {
  holds = drop_holds repository superseded g.holds;
  live = g.live ++ new_slots request.repository repository take g.serials;
  offers = use_offer repository n g.offers;
  last_served = some repository;
  serials = g.serials + length take;
}

-- A repository that was granted a part of its request waits for the rest.
unfoldable pub wait_for_rest : Governor → ReservationRequest → String → ℕ → Governor
wait_for_rest g request repository n = record g {
  waiters =
      put_text repository
        (record { limit = concurrency; requested_usd = sum_intents (drop_first n request.intents) })
        g.waiters;
}

unfoldable pub grant :
    Governor
    → ReservationRequest
    → String
    → ℕ
    → List ReservationIntent
    → List String
    → Reserved × Governor
unfolding new_slots take_slots wait_for_rest
grant g request repository n take superseded =
    let slots = new_slots request.repository repository take g.serials in
    let h = take_slots g request repository n take superseded in
    if n == length request.intents then (granted_with slots none, h) else (
      granted_with slots (
          some (record (base_refusal g concurrency request) {
            granted = n;
            names = names_for h (request.repository ∷ []);
          })),
      wait_for_rest h request repository n,
    )

-- A limit that the projected spend and the request exceed.
abbrev pub exceeds : Option ℤ → ℤ → ℤ → ℤ → Bool
exceeds none closed running requested = false
exceeds (some limit) closed running requested = ltb_ℤ limit (closed +ℤ running +ℤ requested)

abbrev pub ceiling_of : Governor → String → Option ℤ
ceiling_of g repository = elim (lookup_text repository g.repos) [
  | none ↦ none
  | some r ↦ r.spend_limit_usd
]

abbrev pub spend_refusal :
    Governor → GovernorLimit → ReservationRequest → ℤ → ℤ → ℤ → Option ℤ → GovernorRefusal
spend_refusal g limit request closed running requested allowed =
    record (base_refusal g limit request) {
      projected_usd = some (closed +ℤ running);
      closed_usd = some closed;
      requested_usd = some requested;
      limit_usd = allowed;
      window_ms = some (spend_window g);
    }

-- The check of the machine's window, and of the repository's own ceiling.
unfoldable pub over_machine : Governor → ℕ → String → List String → ℤ → Bool
unfolding enforcing
over_machine g now repository superseded requested =
    let s = machine_spend g now (some repository) superseded in
    enforcing g && exceeds g.cfg.spend_limit_usd s.closed s.open_usd requested

unfoldable pub over_ceiling : Governor → ℕ → String → List String → ℤ → Bool
unfolding enforcing
over_ceiling g now repository superseded requested =
    let s = repo_spend g now repository superseded in
    enforcing g && exceeds (ceiling_of g repository) s.closed s.open_usd requested

unfoldable pub refuse_machine :
    Governor → ℕ → ReservationRequest → String → List String → ℤ → Reserved × Governor
unfolding refuse
refuse_machine g now request repository superseded requested =
    let s = machine_spend g now (some repository) superseded in
    refuse g (spend_refusal g spend request s.closed s.open_usd requested g.cfg.spend_limit_usd)
      requested repository

unfoldable pub refuse_ceiling :
    Governor → ℕ → ReservationRequest → String → List String → ℤ → Reserved × Governor
unfolding refuse
refuse_ceiling g now request repository superseded requested =
    let s = repo_spend g now repository superseded in
    refuse g
      (spend_refusal g repository_spend request s.closed s.open_usd requested
        (ceiling_of g repository))
      requested repository

-- The two spend checks, and the grant.
unfoldable pub reserve_funded :
    Governor
    → ℕ
    → ReservationRequest
    → String
    → ℕ
    → List ReservationIntent
    → List String
    → Reserved × Governor
unfolding over_machine over_ceiling refuse_machine refuse_ceiling grant
reserve_funded g now request repository n take superseded =
    if over_machine g now repository superseded (sum_intents take)
    then refuse_machine g now request repository superseded (sum_intents take)
    else if over_ceiling g now repository superseded (sum_intents take)
    then refuse_ceiling g now request repository superseded (sum_intents take)
    else grant g request repository n take superseded

-- `n`: how many of the intents the cap and the slots offered to others leave room for.
unfoldable pub grantable : Governor → ReservationRequest → String → ℕ
unfolding takes_over fitting others_offered
grantable g request repository =
    let cap = cap_of g in
    if cap == 0
    then length request.intents
    else fitting (takes_over g.holds repository) cap
        (occupied_slots g + others_offered repository g.offers) request.intents

abbrev label_of_option : Governor → Option String → Option String
label_of_option g none = none
label_of_option g (some k) = some (label_of g k)

-- A slot is free, but offered to another repository.
unfoldable pub is_turn : Governor → String → Bool
unfolding others_offered
is_turn g repository =
    not (cap_of g == 0)
    && ltb (occupied_slots g) (cap_of g)
    && ltb 0 (others_offered repository g.offers)

abbrev pub slot_refusal : Governor → ReservationRequest → String → GovernorRefusal
slot_refusal g request repository =
    if is_turn g repository
    then record (base_refusal g turn request) {
      held_for = label_of_option g (first_other repository g.offers);
    }
    else base_refusal g concurrency request

abbrev pub seed_refusal : Governor → ReservationRequest → GovernorRefusal
seed_refusal g request = record (base_refusal g concurrency request) {
  unseeded = unseeded_repositories g;
}

-- The checks of the seeds, of the cap and of the turn.
unfoldable pub reserve_slots : Governor → ℕ → ReservationRequest → String → Reserved × Governor
unfolding takes_over grantable refuse is_turn reserve_funded
reserve_slots g now request repository =
    let n = grantable g request repository in
    let take = take_first n request.intents in
    if not (is_empty (unseeded_repositories g))
    then refuse g (seed_refusal g request) (sum_intents request.intents) repository
    else if n == 0
    then refuse g (slot_refusal g request repository) (sum_intents request.intents) repository
    else reserve_funded g now request repository n take
        (superseded_keys (takes_over g.holds repository) take)

-- A repository that nobody registered is known from now on, and seeded.
unfoldable pub known_or_seeded : Governor → String → Governor
unfolding register
known_or_seeded g label =
    let repository = repository_id_key label in
    if has_text repository g.repos
    then g
    else let h = register g label no_options in record h { repos = mark_seeded repository h.repos }

unfoldable pub expire_and_free : Governor → ℕ → Governor
unfolding expire freed
expire_and_free g now = let e = expire g now in if e.1 then freed e.0 now none else e.0

abbrev pub thrown_message : String → String → String
thrown_message key label = join (
    "governor: one request names the key \"" ∷ key ∷ "\" twice for " ∷ label
    ∷ " — each dispatch needs its own key" ∷ [])

-- `reserve(request)`.
unfoldable pub reserve : Governor → ℕ → ReservationRequest → Reserved × Governor
unfolding known_or_seeded expire_and_free reserve_slots
reserve g now request =
    let label = request.repository in
    let repository = repository_id_key label in
    elim (repeated_key [] request.intents) [
      | some key ↦ (repeated (thrown_message key label), g)
      | none ↦
          if has_text repository g.tombstones
          then (
            granted_with [] (
                some (record (base_refusal g unregistered request) {
                  names = names_for g (label ∷ []);
                })),
            g,
          )
          else reserve_slots (expire_and_free (known_or_seeded g label) now) now request repository
    ]
