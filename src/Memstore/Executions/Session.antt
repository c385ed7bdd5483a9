-- ===== src/Memstore/Executions/Session.antt =====
-- At most one execution of a session is running or blocked.
use rebuno.Prelude.{
  Bool-cases, String, any, ap, arith, eq_iff, false, if◌then◌else◌, inl, inr, none, refl, some,
  string_eq, true, ℕ_eq, ◌==◌, ◌∙◌, ◌≡◌, ◌⊎◌,
}
use rebuno.Context.{Context}
use rebuno.Domain.Json.{RawMessage}
use rebuno.Domain.Records.{Execution, Uuid}
use rebuno.Domain.Status.{ExecutionStatus, is_active, is_terminal}
use rebuno.Memstore.Executions.{
  create_execution, created, occupies, session_taken, set_execution_parent, update_execution_status,
  with_status,
}
use rebuno.Memstore.Store.{Store}
use rebuno.Prelude.Dict.{
  IsKeyed, IsKeyed-lookup, any-lookup, insert, insert-IsKeyed, lookup, lookup-insert, values,
}

abbrev pub execution_id : Execution → Uuid
execution_id e = e.id

pub record SessionInv (s : Store) : Type 0 where
  pub keyed : IsKeyed execution_id s.executions
  pub alone :
      (a b : Uuid) (x y : Execution)
      → lookup a s.executions ≡ some x
      → lookup b s.executions ≡ some y
      → is_active x.status ≡ true
      → is_active y.status ≡ true
      → (x.session == "") ≡ false
      → x.session ≡ y.session
      → a ≡ b

-- A store in which the execution under id is e, and which else is s.
module _ (id : Uuid) (e : Execution) (s t : Store) (put : t.executions ≡ insert id e s.executions)
    (under : e.id ≡ id) (h : SessionInv s) where
  lookup-put :
      (j : Uuid) → lookup j t.executions ≡ (if id == j then some e else lookup j s.executions)
  lookup-put j = ap (lookup j) put ∙ lookup-insert id j e s.executions

  IsKeyed-put : IsKeyed execution_id t.executions
  IsKeyed-put = rw put (insert-IsKeyed execution_id id e s.executions under h.keyed)

  taken :
      (b : Uuid) (y : Execution)
      → lookup b s.executions ≡ some y
      → (id == b) ≡ false
      → is_active y.status ≡ true
      → e.session ≡ y.session
      → any (occupies id e.session) (values s.executions) ≡ false
      → ⊥
  taken b y q ib ay same free =
      let off = any-lookup (occupies id e.session) s.executions b y free q in
      let yb = IsKeyed-lookup execution_id b y s.executions h.keyed q in
      ground (arith, off, yb, eq_iff y.session e.session)

  -- e is not active, or no other execution occupies its session.
  put_alone :
      (is_active e.status ≡ true
        → (e.session == "") ≡ false
        → any (occupies id e.session) (values s.executions) ≡ false)
      → SessionInv t
  put_alone free = record {
    keyed = IsKeyed-put;
    alone = λ a b x y p q ax ay ne same. elim (Bool-cases (id == a)) [
      | inl ia ↦ elim (Bool-cases (id == b)) [
        | inl ib ↦ omega (arith, (ℕ_eq.beq_iff id a).0 ia, (ℕ_eq.beq_iff id b).0 ib)
        | inr ib ↦ absurd (
            taken b y (ground (arith, lookup-put b)) ib ay (ground (arith, lookup-put a))
              (free (ground (arith, lookup-put a)) (ground (arith, lookup-put a))))
      ]
      | inr ia ↦ elim (Bool-cases (id == b)) [
        | inl ib ↦ absurd (
            taken a x (ground (arith, lookup-put a)) ia ax (ground (arith, lookup-put b))
              (free (ground (arith, lookup-put b)) (ground (arith, lookup-put b))))
        | inr ib ↦
            h.alone a b x y (ground (arith, lookup-put a)) (ground (arith, lookup-put b)) ax ay ne
              same
      ]
    ];
  }

  -- e has the status and the session of the execution that stood under id.
  module _ (old : Execution) (stood : lookup id s.executions ≡ some old)
      (status : e.status ≡ old.status) (session : e.session ≡ old.session) where
    before :
        (j : Uuid) (x : Execution)
        → lookup j t.executions ≡ some x
        → (w : Execution) × (lookup j s.executions ≡ some w)
          × (x.status ≡ w.status)
          × (x.session ≡ w.session)
    before j x p = elim (Bool-cases (id == j)) [
      | inl same ↦ (
        old,
        ground (arith, lookup-put j),
        ground (arith, lookup-put j),
        ground (arith, lookup-put j),
      )
      | inr other ↦ (x, ground (arith, lookup-put j), refl, refl)
    ]

    put_same : SessionInv t
    put_same = record {
      keyed = IsKeyed-put;
      alone = λ a b x y p q ax ay ne same.
          let (v, pv, vs, vt) = before a x p in
          let (w, pw, ws, wt) = before b y q in
          h.alone a b v w pv pw (rw (← vs) ax) (rw (← ws) ay) (rw (← vt) ne) (cc (vt, wt, same));
    }

-- Sets the status of an execution, or leaves the store as it is.
module _ (ctx : Context) (id : Uuid) (status : ExecutionStatus) (output : RawMessage)
    (reason : String) (s : Store) where
  pub update_effect :
      let t = (update_execution_status ctx id status output reason s).1 in
      (t ≡ s)
      ⊎ ((e : Execution) × (lookup id s.executions ≡ some e)
          × (is_terminal e.status ≡ false)
          × (session_taken id status e s ≡ false)
          × (t ≡ record s {
            executions = insert id (with_status ctx status output reason e) s.executions;
          }))
  unfolding update_execution_status
  update_effect = ground arith

  -- Setting a status, to whatever value and whether or not it is refused, leaves at most one execution of each session running or blocked.
  pub update_execution_status-SessionInv :
      SessionInv s → SessionInv (update_execution_status ctx id status output reason s).1
  update_execution_status-SessionInv h = elim update_effect [
    | inl same ↦ rw same h
    | inr (e, p, live, free, t) ↦ rw t (
        put_alone id (with_status ctx status output reason e) s _ refl
          (IsKeyed-lookup execution_id id e s.executions h.keyed p) h (λ act ne. ground arith))
  ]

-- Creates an execution under a new identifier, or leaves the store as it is.
pub create_effect :
    (ctx : Context) (exec : Execution) (s : Store)
    → ((create_execution ctx exec s).1 ≡ s)
      ⊎ ((lookup exec.id s.executions ≡ none)
          × ((create_execution ctx exec s).1
              ≡ record s { executions = insert exec.id (created ctx exec) s.executions }))
unfolding create_execution
create_effect ctx exec s = ground arith

pub create_execution-SessionInv :
    (ctx : Context) (exec : Execution) (s : Store)
    → SessionInv s
    → SessionInv (create_execution ctx exec s).1
create_execution-SessionInv ctx exec s h = elim (create_effect ctx exec s) [
  | inl same ↦ rw same h
  | inr (new, t) ↦ rw t (put_alone exec.id (created ctx exec) s _ refl refl h (λ act ne. cc))
]

-- Sets the parent of an execution, or leaves the store as it is.
pub parent_effect :
    (id parent : Uuid) (s : Store)
    → ((set_execution_parent id parent s).1 ≡ s)
      ⊎ ((e : Execution) × (lookup id s.executions ≡ some e)
          × ((set_execution_parent id parent s).1 ≡ record s {
            executions = insert id (record e { parent_execution_id = some parent }) s.executions;
          }))
unfolding set_execution_parent
parent_effect id parent s = ground arith

pub set_execution_parent-SessionInv :
    (id parent : Uuid) (s : Store) → SessionInv s → SessionInv (set_execution_parent id parent s).1
set_execution_parent-SessionInv id parent s h = elim (parent_effect id parent s) [
  | inl same ↦ rw same h
  | inr (e, p, t) ↦ rw t (
      put_same id (record e { parent_execution_id = some parent }) s _ refl
        (IsKeyed-lookup execution_id id e s.executions h.keyed p) h e p refl refl)
]

pub SessionInv-of_eq : (s t : Store) → t.executions ≡ s.executions → SessionInv s → SessionInv t
SessionInv-of_eq s t q h = record {
  keyed = rw q h.keyed;
  alone = λ a b x y p r. h.alone a b x y (rw (← q) p) (rw (← q) r);
}
