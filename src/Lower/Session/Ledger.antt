-- ===== src/Lower/Session/Ledger.antt =====
-- Which probes a session leaves attached.
use project_bifrost.Base.{
  ℕ, zero, suc, ◌≡◌, inl, inr, refl, ◌∙◌, arith, Option, none, some, List, [], ◌∷◌, Bytes, ◌==◌,
  Bool-cases, if◌then◌else◌,
}
use project_bifrost.Lower.Error.{Result, ok, err, LowerError, RejectReason}
use project_bifrost.Lower.Dof.{DofView}
use project_bifrost.Lower.Agg.{AggKind}
use project_bifrost.Lower.Action.{ActionDescriptor, is_destructive, is_agg_sentinel}
use project_bifrost.Lower.Adapter.{KernelAdapter}
use project_bifrost.Lower.Ecb.{
  EcbDescriptor, action_row, walk_rows, walk_actions, chain, call, proceed, walk_chain,
}
use project_bifrost.Lower.Session.{
  Walk, on_action, record_with, declare_sentinel, declare, note_error, difo_bytes,
}

-- The first `id` of the list is taken out.
unfoldable pub remove : ℕ → List ℕ → List ℕ
remove id [] = []
remove id (x ∷ live) = let rest = remove id live in if x == id then live else x ∷ rest

pub remove-head : (id : ℕ) (live : List ℕ) → remove id (id ∷ live) ≡ live
unfolding remove
remove-head id live = ground arith

abbrev pub keep : {X A : Type 0} → List ℕ → X × A → X × (A × List ℕ)
keep live (x, a) = (x, (a, live))

abbrev pub enter :
    {A : Type 0} → List ℕ → Result RejectReason ℕ × A → Result RejectReason ℕ × (A × List ℕ)
enter live (ok id, a) = (ok id, (a, id ∷ live))
enter live (err r, a) = (err r, (a, live))

-- The adapter with a ledger of what is attached, the newest first.
abbrev pub with_ledger : {A : Type 0} → KernelAdapter A → KernelAdapter (A × List ℕ)
with_ledger adapter = record {
  provider_supports = λ provider s. adapter.provider_supports provider s.0;
  attach_probe = λ target s. enter s.1 (adapter.attach_probe target s.0);
  bind_predicate = λ id difo s. keep s.1 (adapter.bind_predicate id difo s.0);
  record_action = λ id action difo s. keep s.1 (adapter.record_action id action difo s.0);
  declare_aggregation =
      λ var kind buckets s. keep s.1 (adapter.declare_aggregation var kind buckets s.0);
  detach_probe = λ id s. (adapter.detach_probe id s.0, remove id s.1);
  on_session_event = λ event s. keep s.1 (adapter.on_session_event event s.0);
}

pub keep-ledger : {X A : Type 0} (live : List ℕ) (r : X × A) → (keep live r).1.1 ≡ live
keep-ledger live (x, a) = refl

module _ {A : Type 0} (adapter : KernelAdapter A) where
  abbrev Spied : KernelAdapter (A × List ℕ)
  Spied = with_ledger adapter

  -- The ledger of a walk's state.
  abbrev ledger : Walk (A × List ℕ) → List ℕ
  ledger w = w.1.1

  noted :
      (x : Option RejectReason) (r : Result RejectReason (Unit {0}) × A) (live : List ℕ)
      → ledger (note_error Spied x (keep live r)) ≡ live
  noted x (ok u, a) live = refl
  noted x (err e, a) live = refl

  declared :
      (var : ℕ) (kind : Result LowerError AggKind) (x : Option RejectReason) (a : A) (live : List ℕ)
      → ledger (declare Spied var kind (x, (a, live))) ≡ live
  declared var (ok kind) x a live = noted x _ live
  declared var (err e) x a live = refl

  sentinel_kept :
      (action : ActionDescriptor) (w : Walk (A × List ℕ))
      → ledger (declare_sentinel Spied action w) ≡ ledger w
  unfolding declare_sentinel
  sentinel_kept action (x, (a, live)) = elim (Bool-cases (is_agg_sentinel action.kind)) [
    | inl agg ↦ rw agg (declared _ _ x a live)
    | inr no_agg ↦ rw no_agg
  ]

  record_kept :
      (id : ℕ) (action : ActionDescriptor) (difo : Result LowerError Bytes) (a : A) (live : List ℕ)
      → ledger (record_with Spied id action difo (a, live)).1 ≡ live
  record_kept id action (err e) a live = refl
  record_kept id action (ok difo) a live =
      sentinel_kept action
        (note_error Spied none (keep live (adapter.record_action id action difo a)))
      ∙ noted none (adapter.record_action id action difo a) live

  module _ (view : DofView) (id : ℕ) where
    on_action_kept :
        (i : ℕ) (action : ActionDescriptor) (w : Walk (A × List ℕ))
        → ledger (on_action Spied view id i action w).1 ≡ ledger w
    unfolding on_action
    on_action_kept i action (some r, (a, live)) = refl
    on_action_kept i action (none, (a, live)) = elim (Bool-cases (is_destructive action.kind)) [
      | inl harmful ↦ rw harmful
      | inr tame ↦ rw tame (record_kept id action (difo_bytes Spied view action) a live)
    ]

    call_kept :
        (i : ℕ) (row : Result LowerError ActionDescriptor) (w : Walk (A × List ℕ))
        → ledger (call (on_action Spied view id) i row w).1 ≡ ledger w
    call_kept i (ok desc) w = on_action_kept i desc w
    call_kept i (err e) w = refl

    proceed_kept :
        (r : Result LowerError (Unit {0}) × Walk (A × List ℕ))
        (rest : Walk (A × List ℕ) → Result LowerError (Unit {0}) × Walk (A × List ℕ))
        → ((w : Walk (A × List ℕ)) → ledger (rest w).1 ≡ ledger w)
        → ledger (proceed (on_action Spied view id) r rest).1 ≡ ledger r.1
    proceed_kept (ok u, w) rest h = h w
    proceed_kept (err e, w) rest h = refl

    rows_kept :
        (left : ℕ) (row : ℕ → Result LowerError ActionDescriptor) (i : ℕ) (w : Walk (A × List ℕ))
        → ledger (walk_rows (on_action Spied view id) left row i w).1 ≡ ledger w
    unfolding walk_rows
    rows_kept zero row i w = refl
    rows_kept (suc left) row i w =
        proceed_kept (call (on_action Spied view id) i (row i) w)
          (walk_rows (on_action Spied view id) left row (suc i)) (rows_kept left row (suc i))
        ∙ call_kept i (row i) w

    chain_kept :
        (ecb : EcbDescriptor) (found : Result LowerError (Bytes × ℕ)) (w : Walk (A × List ℕ))
        → ledger (walk_chain (on_action Spied view id) ecb found w).1 ≡ ledger w
    chain_kept ecb (err e) w = refl
    chain_kept ecb (ok (section, entsize)) w =
        rows_kept ecb.action_count (action_row ecb section entsize) 0 w

    pub walk_kept :
        (ecb : EcbDescriptor) (w : Walk (A × List ℕ))
        → ledger (walk_actions (on_action Spied view id) view ecb w).1 ≡ ledger w
    unfolding walk_actions
    walk_kept ecb w = elim (Bool-cases (ecb.action_count == 0)) [
      | inl empty ↦ rw empty
      | inr rows ↦ rw rows (chain_kept ecb (chain view ecb) w)
    ]
