-- ===== src/Decisions/Steps/Types.antt =====
-- The versions of a space's record types that types/set of applyOne in lib/decisions/apply.js
-- records, each checked by checkCompatible of lib/types.js against the one before.
use hypergraph.Prelude.{
  none_not, some_inj, ℕ, zero, suc, ◌≡◌, ◌≢◌, sym, subst, ◌<◌, ◌≤◌, ◌==◌, true, false, Option, none,
  some, [], List, String, arith, if◌then◌else◌, Option-cases, Bool-cases, inl, inr,
}
use hypergraph.Types.{Named, Stored, Declared, describe}
use hypergraph.Types.Declare.{Declaration, declarations_of}
use hypergraph.Types.Compatible.{check_compatible}
use hypergraph.Types.All.{new_types, from_stored}
use hypergraph.Types.Versions.{check_compatible_trans}
use hypergraph.Decisions.Data.{Env}
use hypergraph.Decisions.View.{set}
use hypergraph.Decisions.Apply.{apply_nodes, Ledger, Node}
use hypergraph.Decisions.Handlers.Settings.{
  or_no_version, accepts_text, accepts, accept_next, accept_types,
}
use hypergraph.Decisions.Seats.{Seats}
use hypergraph.Decisions.Steps.{Write, after, Reach_induction}
use hypergraph.Decisions.Steps.Log.{apply_nodes-Reach}

-- JSON.parse reads what JSON.stringify writes.
abbrev pub IsJson : Env → Type 0
IsJson env = (s : Named Stored) → env.parse (env.print s) ≡ some s

-- Each version up to the present one is the text of declared types, which every later version is
-- compatible with.
record IsGrowing (env : Env) (current : ℕ) (at : ℕ → Option String) : Type 0 where
  types : ℕ → Named Declared
  from : ℕ → Named Declaration
  is_text : (n : ℕ) → 0 < n → n ≤ current → at n ≡ some (env.print (describe (types n)))
  is_made : (n : ℕ) → 0 < n → n ≤ current → new_types (from n) ≡ some (types n)
  is_fitting :
      (m n : ℕ)
      → 0 < m
      → m < n
      → n ≤ current
      → check_compatible (types n) (describe (types m)) ≡ true

false_not : false ≢ true
false_not h = cc

module _ (env : Env) (current : ℕ) (at : ℕ → Option String) where
  accept_next-accepts :
      (next : Named Declared) (text : String)
      → accept_next env current at (some next) ≡ some text
      → (accepts env next current at ≡ true) × (text ≡ env.print (describe next))
  unfolding describe
  accept_next-accepts next text h = elim (Bool-cases (accepts env next current at)) [
    | inl k ↦ (k, sym (some_inj (env.print (describe next)) text (rw k at h)))
    | inr k ↦ absurd (none_not text (rw k at h))
  ]

  -- What the types recorded are: declared, and compatible with those before.
  accept_types-accepts :
      (types text : String)
      → accept_types env current at types ≡ some text
      → (stored : Named Stored) × (next : Named Declared) × (from_stored stored ≡ some next)
        × (accepts env next current at ≡ true)
        × (text ≡ env.print (describe next))
  unfolding accept_types
  accept_types-accepts types text h = elim (Option-cases (env.parse types)) [
    | inl k ↦ absurd (none_not text (rw (accept_types, k) at h))
    | inr (stored, k) ↦ elim (Option-cases (from_stored stored)) [
      | inl j ↦ absurd (none_not text (rw (accept_types, k, j) at h))
      | inr (next, j) ↦
          let both = accept_next-accepts next text (rw (accept_types, k, j) at h) in
          (stored, next, j, both.0, both.1)
    ]
  ]

module _ (env : Env) (current : ℕ) (at : ℕ → Option String) (json : IsJson env)
    (g : IsGrowing env current at) (next : Named Declared) (ds : Named Declaration)
    (h : accepts env next current at ≡ true) (made : new_types ds ≡ some next) where
  newest_fits : 0 < current → check_compatible next (describe (g.types current)) ≡ true
  newest_fits p = newest current at g h p
    where
      newest :
          (v : ℕ) (at : ℕ → Option String) (g : IsGrowing env v at)
          → accepts env next v at ≡ true
          → 0 < v
          → check_compatible next (describe (g.types v)) ≡ true
      newest zero at g h p = absurd (omega arith)
      newest (suc v) at g h p =
          let same : at (suc v) ≡ some (env.print (describe (g.types (suc v)))) =
            g.is_text (suc v) p (omega arith) in
          let stored = describe (g.types (suc v)) in
          let t : accepts_text env next (some (env.print stored)) ≡ true =
            subst (λ o. accepts_text env next o ≡ true) same h in
          rw (accepts_text, json stored) at t

  -- The next version is compatible with each one recorded.
  accepts-describe :
      (m : ℕ) → 0 < m → m ≤ current → check_compatible next (describe (g.types m)) ≡ true
  accepts-describe m p q = elim (Bool-cases (m == current)) [
    | inl e ↦
        let same : m ≡ current = ground arith in
        subst (λ k. check_compatible next (describe (g.types k)) ≡ true) (sym same)
          (newest_fits (ground arith))
    | inr e ↦
        check_compatible_trans (g.from current) (g.types m) (g.types current) next
          (g.is_made current (omega arith) (omega arith))
          (g.is_fitting m current p (ground arith) (omega arith)) (newest_fits (omega arith))
  ]

  grown : IsGrowing env (suc current) (set at (suc current) (some (env.print (describe next))))
  grown = record {
    types = λ n. if n == suc current then next else g.types n;
    from = λ n. if n == suc current then ds else g.from n;
    is_text = λ n p q. elim (Bool-cases (n == suc current)) [
      | inl e ↦ ground arith
      | inr e ↦ rw e (ground (arith, g.is_text n p (ground arith)))
    ];
    is_made = λ n p q. elim (Bool-cases (n == suc current)) [
      | inl e ↦ rw e made
      | inr e ↦ rw e (g.is_made n p (ground arith))
    ];
    is_fitting = λ m n p q r.
        let old : m == suc current ≡ false = ground arith in
        elim (Bool-cases (n == suc current)) [
          | inl e ↦ rw (e, old) (accepts-describe m p (ground arith))
          | inr e ↦ rw (e, old) (g.is_fitting m n p q (ground arith))
        ];
  }

module _ (env : Env) (json : IsJson env) where
  typed-IsGrowing :
      (current : ℕ) (at : ℕ → Option String) (types text : String)
      → accept_types env current at types ≡ some text
      → IsGrowing env current at
      → IsGrowing env (suc current) (set at (suc current) (some text))
  unfolding from_stored
  typed-IsGrowing current at types text e g =
      let a = accept_types-accepts env current at types text e in
      subst (λ t. IsGrowing env (suc current) (set at (suc current) (some t))) (sym a.4)
        (grown env current at json g a.1 (declarations_of a.0) a.3 a.2)

  none-IsGrowing : (at : ℕ → Option String) → IsGrowing env 0 at
  none-IsGrowing at = record {
    types = λ n. [];
    from = λ n. [];
    is_text = λ n p q. absurd (omega arith);
    is_made = λ n p q. absurd (omega arith);
    is_fitting = λ m n p q r. absurd (omega arith);
  }

  apply_nodes-IsGrowing :
      (nodes : List Node) (l : Ledger)
      → IsGrowing env (or_no_version l.view.types) l.view.types_at
      → IsGrowing env
          (or_no_version (apply_nodes env nodes l).view.types)
          (apply_nodes env nodes l).view.types_at
  apply_nodes-IsGrowing nodes l g =
      Reach_induction (λ x. IsGrowing env (or_no_version x.types) x.types_at) keeps
        (apply_nodes-Reach env nodes l) g
    where
      keeps :
          (x : Seats) (w : Write env x)
          → IsGrowing env (or_no_version x.types) x.types_at
          → IsGrowing env (or_no_version (after w).types) (after w).types_at
      keeps x (Write.typed text types ok) k =
          typed-IsGrowing (or_no_version x.types) x.types_at types text ok k
      keeps x w k = k

  -- Where JSON reads the types that it wrote, whatever decisions are applied from a view with no
  -- types recorded: each version of the types recorded is the text of declared types, and any
  -- later version is compatible with any earlier one, not only with the one right before it.
  pub types_grow :
      (nodes : List Node) (l : Ledger) (m n : ℕ)
      → l.view.types ≡ none
      → 0 < m
      → m < n
      → n ≤ or_no_version (apply_nodes env nodes l).view.types
      → (old : Named Declared) × (new : Named Declared) × ((apply_nodes env nodes l).view.types_at m
          ≡ some (env.print (describe old)))
        × ((apply_nodes env nodes l).view.types_at n ≡ some (env.print (describe new)))
        × (check_compatible new (describe old) ≡ true)
  types_grow nodes l m n fresh p q r =
      let g = apply_nodes-IsGrowing nodes l (
        subst (λ t. IsGrowing env (or_no_version t) l.view.types_at) (sym fresh)
          (none-IsGrowing l.view.types_at)) in
      (
        g.types m,
        g.types n,
        g.is_text m p (omega arith),
        g.is_text n (omega arith) r,
        g.is_fitting m n p q r,
      )
