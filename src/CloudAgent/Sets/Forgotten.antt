-- ===== src/CloudAgent/Sets/Forgotten.antt =====
-- internal/cloudagent: what CleanupRunnerSet forgets, reports and asks of the backends.
use elastic_fruit_runner.Base.{
  ◌≡◌, refl, ap, subst, Bool-cases, Option-cases, inl, inr, ◌∙◌, Bool, true, false, ◌||◌, not,
  String, Option, none, some, List, [], ◌∷◌, ◌++◌, ◌==◌, eq_iff, arith, if◌then◌else◌, Map, lookup,
  contains, Distinct, lookup-delete,
}
use elastic_fruit_runner.Controller.Tracker.{RunnerTracker, remove}
use elastic_fruit_runner.Controller.Tracker.Phases.{phases, unknown}
use elastic_fruit_runner.CloudAgent.Agent.{Agent, BackendKey, RunnerInfo, same_key, has_key}
use elastic_fruit_runner.CloudAgent.Sets.{
  forget_set, backend_of_set, insert_name, sort_names, remove_each, forget_runner_set,
}

abbrev value_or {ℓ} : {A : Type ℓ} → A → Option A → A
value_or a none = a
value_or a (some b) = b

has_key-same :
    (a b : BackendKey) (bs : List BackendKey) → same_key a b ≡ true → has_key a bs ≡ has_key b bs
unfolding has_key
has_key-same a b [] h = refl
has_key-same a b (c ∷ bs) h = ground (
  arith,
  h,
  has_key-same a b bs h,
  eq_iff a.backend b.backend,
  eq_iff a.image b.image,
  eq_iff a.platform b.platform,
  eq_iff a.runtime b.runtime,
)

same_key_self : (b : BackendKey) → same_key b b ≡ true
same_key_self b = ground (
  arith,
  eq_iff b.backend b.backend,
  eq_iff b.image b.image,
  eq_iff b.platform b.platform,
  eq_iff b.runtime b.runtime,
)

-- Whether a runner is one of the set.
abbrev pub in_set : String → Option RunnerInfo → Bool
in_set set_name none = false
in_set set_name (some info) = info.set_name == set_name

module _ (set_name name : String) where
  forget_set-lookup :
      (seen : List BackendKey) (runners : Map RunnerInfo)
      → Distinct runners
      → let (kept, removed, backends) = forget_set set_name seen runners in
        (lookup name kept
          ≡ (if in_set set_name (lookup name runners) then none else lookup name runners))
        × (contains name removed ≡ in_set set_name (lookup name runners))
  unfolding forget_set lookup contains
  forget_set-lookup seen [] d = (refl, refl)
  forget_set-lookup seen ((n, info) ∷ runners) d =
      let seen' = (if info.set_name == set_name then info.backend ∷ seen else seen) in
      let (kept, removed) = forget_set-lookup seen' runners d.1 in
      (ground (arith, kept, d.0, eq_iff n name), ground (arith, removed, d.0, eq_iff n name))

  forget_set-has_key :
      (seen : List BackendKey) (runners : Map RunnerInfo) (info : RunnerInfo)
      → lookup name runners ≡ some info
      → (info.set_name == set_name) ≡ true
      → (has_key info.backend seen || has_key info.backend (forget_set set_name seen runners).2)
        ≡ true
  unfolding forget_set lookup has_key
  forget_set-has_key seen [] info h e = ground (arith, h)
  forget_set-has_key seen ((n, other) ∷ runners) info h e = elim (Bool-cases (n == name)) [
    | inl here ↦
        let found : some other ≡ some info = ground (arith, here, h) in
        let same = ap (value_or other) found in
        subst
          (λ x.
            (x.set_name == set_name) ≡ true
            → (has_key x.backend seen
                || has_key x.backend (forget_set set_name seen ((n, other) ∷ runners)).2)
              ≡ true)
          same (λ own. ground (arith, own, same_key_self other.backend)) e
    | inr there ↦
        let seen' = (if other.set_name == set_name then other.backend ∷ seen else seen) in
        let later = forget_set-has_key seen' runners info (ground (arith, there, h)) e in
        ground (arith, later, has_key-same other.backend info.backend seen)
  ]

contains-insert_name :
    (k name : String) (names : List String)
    → contains k (insert_name name names) ≡ (name == k || contains k names)
unfolding contains insert_name
contains-insert_name k name [] = refl
contains-insert_name k name (n ∷ names) = ground (arith, contains-insert_name k name names)

contains-sort_names :
    (k : String) (names : List String) → contains k (sort_names names) ≡ contains k names
unfolding contains sort_names
contains-sort_names k [] = refl
contains-sort_names k (name ∷ names) =
    contains-insert_name k name (sort_names names)
    ∙ ap (λ b. name == k || b) (contains-sort_names k names)

has_key-append :
    (b : BackendKey) (xs ys : List BackendKey) → has_key b xs ≡ true → has_key b (xs ++ ys) ≡ true
unfolding has_key
has_key-append b [] ys h = ground (arith, h)
has_key-append b (x ∷ xs) ys h = ground (arith, h, has_key-append b xs ys)

backend_of_set-keeps :
    (set_name : String) (b : BackendKey) (a : Agent) (backends : List BackendKey)
    → has_key b backends ≡ true
    → has_key b (backend_of_set set_name a backends) ≡ true
unfolding backend_of_set
backend_of_set-keeps set_name b a backends h = elim (Option-cases (lookup set_name a.runner_sets)) [
  | inl unknown ↦ ground (arith, h, unknown)
  | inr (state, known) ↦
      let key : BackendKey = record {
        backend = state.backend;
        image = state.image;
        platform = state.platform;
        runtime = "";
      } in
      ground (arith, h, known, has_key-append b backends (key ∷ []) h)
]

phases-remove :
    (name n : String) (tracker : RunnerTracker)
    → phases (remove n tracker) name ≡ (if n == name then unknown else phases tracker name)
unfolding phases remove
phases-remove name n tracker =
    let preparing = lookup-delete n name tracker.preparing in
    let idle = lookup-delete n name tracker.idle in
    let busy = lookup-delete n name tracker.busy in
    elim (Bool-cases (n == name)) [
      | inl here ↦ rw (preparing, idle, busy, here)
      | inr there ↦ rw (preparing, idle, busy, there)
    ]

-- `Remove` of several runners.
phases-remove_each :
    (name : String) (names : List String) (tracker : RunnerTracker)
    → phases (remove_each names tracker) name
      ≡ (if contains name names then unknown else phases tracker name)
unfolding remove_each contains
phases-remove_each name [] tracker = refl
phases-remove_each name (n ∷ names) tracker =
    phases-remove_each name names (remove n tracker)
    ∙ ap (λ p. if contains name names then unknown else p) (phases-remove name n tracker)
    ∙ elim (Bool-cases (n == name)) [
      | inl here ↦ elim (Bool-cases (contains name names)) [
        | inl later ↦ rw (here, later)
        | inr never ↦ rw (here, never)
      ]
      | inr there ↦ rw there
    ]

-- Whether the backend of a runner of the set is one of these.
abbrev pub is_given : String → List BackendKey → Option RunnerInfo → Bool
is_given set_name backends none = true
is_given set_name backends (some info) =
    not (info.set_name == set_name) || has_key info.backend backends

-- forgetRunnerSet, for every name: the agent forgets the runner if it is one of the set and keeps
-- what it knows of it otherwise, so does the tracker in each phase, the names given out are exactly
-- those of the runners of the set, and the backends given out have that of each of them.
pub forget_runner_set_lem :
    (set_name name : String) (a : Agent)
    → Distinct a.runners
    → let (a', removed, backends) = forget_runner_set set_name a in
      let own = in_set set_name (lookup name a.runners) in
      (lookup name a'.runners ≡ (if own then none else lookup name a.runners))
      × (phases a'.tracker name ≡ (if own then unknown else phases a.tracker name))
      × (contains name removed ≡ own)
      × (is_given set_name backends (lookup name a.runners) ≡ true)
unfolding forget_runner_set has_key
forget_runner_set_lem set_name name a distinct =
    let (kept, removed) = forget_set-lookup set_name name [] a.runners distinct in
    let names = (forget_set set_name [] a.runners).1 in
    let backends = (forget_set set_name [] a.runners).2 in
    (
      kept,
      phases-remove_each name names a.tracker
          ∙ ap (λ b. if b then unknown else phases a.tracker name) removed,
      contains-sort_names name names ∙ removed,
      elim (Option-cases (lookup name a.runners)) [
        | inl missing ↦ rw missing
        | inr (info, known) ↦ elim (Bool-cases (info.set_name == set_name)) [
          | inr other ↦ rw (known, other)
          | inl own ↦
              let found : has_key info.backend backends ≡ true =
                forget_set-has_key set_name name [] a.runners info known own in
              rw (known, own) (backend_of_set-keeps set_name info.backend a backends found)
        ]
      ],
    )
