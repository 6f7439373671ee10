-- ===== src/Execution/Start/Gate.antt =====
-- src/execution.rs: what a resumed process and a closed connection can count on.
use mathlib.Core.Path.{subst}
use mathlib.Core.Option.{some-injective}
use master_control_program.Base.{
  ℕ, ◌≡◌, ◌⊎◌, inl, inr, String, Bool, true, false, none, some, [], ◌∷◌, arith, ok, Option-cases,
  Bool-cases, str_eq_iff, length, refl, ap, is_ok, str_eq, sym, ◌∙◌,
}
use master_control_program.Base.Map.{Map, string_key, get, get-adjust, Distinct, total}
use master_control_program.Execution.Record.{Entry, Lifetime, starting, running, owned_by}
use master_control_program.Execution.Entry.{OsAnswer, terminate, is_over}
use master_control_program.Execution.Registry.{Registry, is_cancelled, connection_is_open}
use master_control_program.Execution.Start.{
  resume, before_resume, disconnect, terminate_all, shutdown_connection, end_one,
}

-- A process is resumed only when its entry is `starting` and no one has asked to end it, while
-- neither the registry nor the host is shut down, and its entry is `running` then.
pub resume-starting :
    (r : Registry) (shutdown requested : Bool) (token : ℕ) (client : String) (lifetime : Lifetime)
    (id : String) (answer : OsAnswer) {q : Registry}
    → resume r shutdown requested token client lifetime id answer ≡ ok q
    → (e : Entry) × (get id r.entries ≡ some e)
      × (e.info.status ≡ starting)
      × (e.info.cancellation_requested ≡ false)
      × (r.closed ≡ false)
      × (shutdown ≡ false)
      × (get id q.entries ≡ some (record e { info = record e.info { status = running } }))
unfolding resume
resume-starting r shutdown requested token client lifetime id answer {q} h =
    elim (Option-cases (get id r.entries)) [
      | inl absent ↦ ground arith
      | inr (e, found) ↦ (
        e,
        found,
        ground arith,
        ground arith,
        ground arith,
        ground arith,
        ground (
          arith,
          str_eq_iff id id,
          get-adjust id id (λ e. record e { info = record e.info { status = running } }) r.entries e
              found,
        ),
      )
    ]

-- A process with the lifetime of a connection is resumed only while that connection is open and
-- neither its token nor the request is canceled.
pub resume-connected :
    (r : Registry) (shutdown requested : Bool) (token : ℕ) (client id : String) (answer : OsAnswer)
    {q : Registry}
    → resume r shutdown requested token client Lifetime.connection id answer ≡ ok q
    → (connection_is_open r client ≡ true) × (is_cancelled r token ≡ false) × (requested ≡ false)
unfolding resume before_resume
resume-connected r shutdown requested token client id answer h = ground arith

terminate-budget :
    (e : Entry) (reason : String) (answer : OsAnswer)
    → (terminate e reason answer).0.budget ≡ e.budget
unfolding terminate
terminate-budget e reason answer = ground arith

-- A termination that does not fail leaves a process that is over, or that was asked to end.
terminate-asked :
    (e : Entry) (reason : String) (answer : OsAnswer)
    → is_ok (terminate e reason answer).1 ≡ true
    → let e' = (terminate e reason answer).0 in
      (is_over e'.info ≡ true) ⊎ (e'.info.cancellation_requested ≡ true)
unfolding terminate
terminate-asked e reason answer h = ground arith

module _ (selected : Entry → Bool) (reason : String) (answers : String → OsAnswer) where
  pub total-terminate_all :
      (m : Map String Entry)
      → total (λ e. e.budget) (terminate_all selected reason answers m).0 ≡ total (λ e. e.budget) m
  unfolding terminate_all
  total-terminate_all [] = refl
  total-terminate_all ((id, e) ∷ m) =
      ground (arith, terminate-budget e reason (answers id), total-terminate_all m)

  pub length-terminate_all :
      (m : Map String Entry) → length (terminate_all selected reason answers m).0 ≡ length m
  unfolding terminate_all
  length-terminate_all [] = refl
  length-terminate_all ((id, e) ∷ m) = ground (arith, length-terminate_all m)

  get-terminate_all :
      (m : Map String Entry) (id : String) {e : Entry}
      → get id m ≡ some e
      → get id (terminate_all selected reason answers m).0
        ≡ some (end_one selected reason (answers id) e)
  unfolding terminate_all get
  get-terminate_all [] id h = cc
  get-terminate_all ((k, x) ∷ m) id {e} h = elim (Bool-cases (str_eq k id)) [
    | inl same ↦ rw same (
        rw ((str_eq_iff k id).0 same)
          (ap (λ x. some (end_one selected reason (answers id) x)) (ground arith)))
    | inr other ↦ rw other (get-terminate_all m id (ground arith))
  ]

  get-terminate_all-none :
      (m : Map String Entry) (id : String)
      → get id m ≡ none
      → get id (terminate_all selected reason answers m).0 ≡ none
  unfolding terminate_all get
  get-terminate_all-none [] id h = refl
  get-terminate_all-none ((k, x) ∷ m) id h = ground (arith, get-terminate_all-none m id)

  pub Distinct-terminate_all :
      (m : Map String Entry) → Distinct m → Distinct (terminate_all selected reason answers m).0
  unfolding terminate_all
  Distinct-terminate_all [] d = tt
  Distinct-terminate_all ((k, x) ∷ m) d =
      ground (arith, Distinct-terminate_all m, get-terminate_all-none m k)

  terminate_all-tail :
      (id : String) (e : Entry) (m : Map String Entry)
      → (terminate_all selected reason answers ((id, e) ∷ m)).1 ≡ []
      → (terminate_all selected reason answers m).1 ≡ []
  unfolding terminate_all
  terminate_all-tail id e m h = ground arith

  terminate_all-head :
      (id : String) (e : Entry) (m : Map String Entry)
      → (terminate_all selected reason answers ((id, e) ∷ m)).1 ≡ []
      → selected e ≡ true
      → is_ok (terminate e reason (answers id)).1 ≡ true
  unfolding terminate_all
  terminate_all-head id e m h s = ground arith

  terminate_all-ok :
      (m : Map String Entry) (id : String) {e : Entry}
      → (terminate_all selected reason answers m).1 ≡ []
      → get id m ≡ some e
      → selected e ≡ true
      → is_ok (terminate e reason (answers id)).1 ≡ true
  unfolding get
  terminate_all-ok [] id none_failed h s = cc
  terminate_all-ok ((k, x) ∷ m) id {e} none_failed h s = elim (Bool-cases (str_eq k id)) [
    | inl same ↦
        (let e≡ : x ≡ e = some-injective _ _ (rw same at h) in
          subst (λ i. is_ok (terminate e reason (answers i)).1 ≡ true) ((str_eq_iff k id).0 same)
            (subst (λ y. is_ok (terminate y reason (answers k)).1 ≡ true) e≡
              (terminate_all-head k x m none_failed (subst (λ y. selected y ≡ true) (sym e≡) s))))
    | inr other ↦ terminate_all-ok m id (terminate_all-tail k x m none_failed) (ground arith) s
  ]

pub disconnect-entries : (r : Registry) (id : String) → (disconnect r id).entries ≡ r.entries
unfolding disconnect
disconnect-entries r id = ground arith

-- If every termination succeeded when a connection is shut down, each of its own processes is over
-- or was asked to end.
pub shutdown_connection-ends :
    (r : Registry) (client : String) (answers : String → OsAnswer) (id : String) {e : Entry}
    → (shutdown_connection r client answers).1 ≡ []
    → get id r.entries ≡ some e
    → owned_by client e ≡ true
    → (e' : Entry) × (get id (shutdown_connection r client answers).0.entries ≡ some e')
      × ((is_over e'.info ≡ true) ⊎ (e'.info.cancellation_requested ≡ true))
unfolding shutdown_connection
shutdown_connection-ends r client answers id {e} all_ended found own =
    let same = disconnect-entries r client in
    let found' : get id (disconnect r client).entries ≡ some e = rw same found in
    (
      (terminate e "connection_closed" (answers id)).0,
      get-terminate_all (owned_by client) "connection_closed" answers (disconnect r client).entries
            id found'
          ∙ rw own,
      terminate-asked e "connection_closed" (answers id) (
          terminate_all-ok (owned_by client) "connection_closed" answers
            (disconnect r client).entries id all_ended found' own),
    )

-- When a connection is shut down, an entry that it does not own stays as it is.
pub shutdown_connection-spares :
    (r : Registry) (client : String) (answers : String → OsAnswer) (id : String) {e : Entry}
    → get id r.entries ≡ some e
    → owned_by client e ≡ false
    → get id (shutdown_connection r client answers).0.entries ≡ some e
unfolding shutdown_connection
shutdown_connection-spares r client answers id {e} found other =
    get-terminate_all (owned_by client) "connection_closed" answers (disconnect r client).entries id
      {e = e} (rw (disconnect-entries r client) found)
    ∙ rw other
