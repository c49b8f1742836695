-- ===== src/Orchestrator/Governor/Reserving/Upkeep.antt =====
-- The state in which `reserve` of packages/orchestrator/src/governor.ts judges a request.
use gateline.Prelude.{
  ℕ, ◌-◌, ◌≡◌, refl, sym, inl, inr, String, Bool, none, some, List, [], ◌∷◌, filter_by, has_text,
  put_text, lookup_text, text_eq, arith, Bool-cases, Option-cases, All, if_intro,
}
use gateline.Orchestrator.Governor.{
  RegisterOptions, Governor, RepoState, repository_id_key, spend_window,
}
use gateline.Orchestrator.Governor.Spend.{expire, prune_repos}
use gateline.Orchestrator.Governor.Spend.Sums.{Unique, text_path, put-Unique}
use gateline.Orchestrator.Governor.Waking.Quiet.{Quiet, freed-Quiet}
use gateline.Orchestrator.Governor.Reserving.{known_or_seeded, expire_and_free}
use gateline.Orchestrator.Governor.Registering.{
  register, fresh_repo, update_repo, no_options, mark_seeded,
}
use gateline.Orchestrator.Governor.Reserving.Solvency.{Sound, RepoSound, repository_id_key_twice}

prune-Sound :
    (since : ℕ) (m : List (String × RepoState))
    → All RepoSound m
    → All RepoSound (prune_repos since m)
prune-Sound since [] a = tt
prune-Sound since ((k, r) ∷ m) a = (a.0, prune-Sound since m a.1)

has-prune :
    (since : ℕ) (k : String) (m : List (String × RepoState))
    → has_text k (prune_repos since m) ≡ has_text k m
has-prune since k [] = refl
has-prune since k ((j, r) ∷ m) = ground (arith, has-prune since k m)

prune-Unique : (since : ℕ) (m : List (String × RepoState)) → Unique m → Unique (prune_repos since m)
prune-Unique since [] u = tt
prune-Unique since ((k, r) ∷ m) u = (rw (has-prune since k m) u.0, prune-Unique since m u.1)

has-mark :
    (repository k : String) (m : List (String × RepoState))
    → has_text k (mark_seeded repository m) ≡ has_text k m
has-mark repository k [] = refl
has-mark repository k ((j, r) ∷ m) = ground (arith, has-mark repository k m)

pub mark-Sound :
    (repository : String) (m : List (String × RepoState))
    → All RepoSound m
    → All RepoSound (mark_seeded repository m)
mark-Sound repository [] a = tt
mark-Sound repository ((k, r) ∷ m) a =
    if_intro (All RepoSound) (text_eq k repository) a (a.0, mark-Sound repository m a.1)

pub mark-Unique :
    (repository : String) (m : List (String × RepoState))
    → Unique m
    → Unique (mark_seeded repository m)
mark-Unique repository [] u = tt
mark-Unique repository ((k, r) ∷ m) u =
    if_intro Unique (text_eq k repository) u
      (rw (has-mark repository k m) u.0, mark-Unique repository m u.1)

pub put-Sound :
    (k : String) (r : RepoState) (m : List (String × RepoState))
    → RepoSound (k, r)
    → All RepoSound m
    → All RepoSound (put_text k r m)
put-Sound k r [] h a = (h, tt)
put-Sound k r ((j, q) ∷ m) h a = elim (Bool-cases (text_eq j k)) [
  | inl e ↦ rw e ((rw (text_path j k e) h), a.1)
  | inr e ↦ rw e (a.0, put-Sound k r m h a.1)
]

pub All-keep {ℓ κ} :
    {A : Type ℓ} (P : A → Type κ) (q : A → Bool) (xs : List A) → All P xs → All P (filter_by q xs)
All-keep P q [] a = tt
All-keep P q (x ∷ xs) a = ground (arith, All-keep P q xs a.1)

some_path : (q r : RepoState) → some q ≡ some r → q ≡ r
some_path q r e = ground (arith, e)

-- A repository that is found stands under its key.
pub found-RepoSound :
    (k : String) (m : List (String × RepoState)) (r : RepoState)
    → All RepoSound m
    → lookup_text k m ≡ some r
    → RepoSound (k, r)
found-RepoSound k [] r a e = ground (arith, e)
found-RepoSound k ((j, q) ∷ m) r a e = elim (Bool-cases (text_eq j k)) [
  | inl same ↦
      let here : q ≡ r = some_path q r (rw same at e) in
      (rw (sym (text_path j k same)) a.0.0, rw (sym here) a.0.1)
  | inr ne ↦ found-RepoSound k m r a.1 (rw ne at e)
]

pub register-Sound :
    (g : Governor) (label : String) (opts : RegisterOptions)
    → Sound g
    → Sound (register g label opts)
unfolding register
register-Sound g label opts s =
    elim (Option-cases (lookup_text (repository_id_key label) g.repos)) [
      | inl e ↦
          rw (e, register)
            (record {
              once = put-Unique (repository_id_key label) (fresh_repo label opts) g.repos s.once;
              repos =
                  put-Sound (repository_id_key label) (fresh_repo label opts) g.repos
                    (repository_id_key_twice label, tt) s.repos;
              holds = s.holds;
              live = s.live;
            })
      | inr (r, e) ↦
          rw (e, register)
            (record {
              once = put-Unique (repository_id_key label) (update_repo r opts) g.repos s.once;
              repos =
                  put-Sound (repository_id_key label) (update_repo r opts) g.repos
                    (found-RepoSound (repository_id_key label) g.repos r s.repos e) s.repos;
              holds = s.holds;
              live = s.live;
            })
    ]

pub known_or_seeded-Sound :
    (g : Governor) (label : String) → Sound g → Sound (known_or_seeded g label)
unfolding known_or_seeded
known_or_seeded-Sound g label s =
    let r = register-Sound g label no_options s in
    if_intro Sound (has_text (repository_id_key label) g.repos) s (record {
      once = mark-Unique (repository_id_key label) (register g label no_options).repos r.once;
      repos = mark-Sound (repository_id_key label) (register g label no_options).repos r.repos;
      holds = r.holds;
      live = r.live;
    })

pub expire-Sound : (g : Governor) (now : ℕ) → Sound g → Sound (expire g now).0
unfolding expire
expire-Sound g now s = record {
  once = prune-Unique (now - spend_window g) g.repos s.once;
  repos = prune-Sound (now - spend_window g) g.repos s.repos;
  holds = All-keep _ _ g.holds s.holds;
  live = s.live;
}

pub Quiet-Sound : {g h : Governor} → Quiet g h → Sound g → Sound h
Quiet-Sound q s = record {
  once = rw q.repos s.once;
  repos = rw q.repos s.repos;
  holds = rw q.holds s.holds;
  live = rw q.live s.live;
}

pub expire_and_free-Sound : (g : Governor) (now : ℕ) → Sound g → Sound (expire_and_free g now)
unfolding expire_and_free
expire_and_free-Sound g now s =
    if_intro Sound (expire g now).1
      (Quiet-Sound (freed-Quiet (expire g now).0 now none) (expire-Sound g now s))
      (expire-Sound g now s)
